-- ===== src/Util/Selector.antt =====
-- ParseScaleSelector of pkg/util/apimachinery.go. labels.Parse is a parameter; of a labels.Selector
-- the program uses Matches.
use kapacity.Common.{Bool, String, [], ◌==◌, string_eq, if◌then◌else◌, Go, err, errorf, wrap_err}
use kapacity.Common.Dict.{GoMap}

pub record Selector : Type 0 where
  pub matches : GoMap String → Bool

unfoldable pub parse_scale_selector : (String → Go Selector) → String → Go Selector
parse_scale_selector parse selector =
    if selector == ""
    then err (errorf "selector should not be empty" [])
    else wrap_err "failed to convert selector into a corresponding internal selector object" []
        (parse selector)
