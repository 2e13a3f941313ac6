-- ===== src/ConfigMap.antt =====
-- pkg/portrait/algorithm/externaljob/resultfetcher/configmap.go: the portrait data that an external
-- job leaves in a ConfigMap. Reading the ConfigMap or a portrait, time.Parse, json.Unmarshal (with
-- the order in which the map is ranged over), strconv.ParseInt, sort.Slice, strings.Contains and
-- strings.TrimSuffix are parameters.
pub mod Fetch
pub mod Watch
pub mod Sorted
mod Tests
