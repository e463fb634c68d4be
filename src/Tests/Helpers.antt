-- ===== src/Tests/Helpers.antt =====
-- The helpers and the thresholds: the theorems at concrete data.
use typesense_operator.Base.{
  Text, codes, text_eq, decimal, atoi, ◌≡◌, ◌≢◌, refl, true, false, none, some, List, [], ◌∷◌,
}
use typesense_operator.Base.Int.{pos}
use typesense_operator.Base.Dict.{Dict, lookup, get_or}
use typesense_operator.Api.{ConfigMap}
use typesense_operator.Quorum.Lag.{healthy_write_lag_key, threshold_or_default, threshold_as_parsed}
use typesense_operator.Quorum.Lag.Agree.{threshold_lem}
use typesense_operator.Utils.{contains, has_ip4_prefix}

abbrev lag_of : Text → ConfigMap
lag_of value = record {
  namespace = codes "search";
  name = codes "ts-conf";
  entries = (healthy_write_lag_key, value) ∷ [];
}

default_reads_back : atoi (decimal 500) ≡ record { value = pos 500; failed = false }
unfolding atoi decimal
default_reads_back = refl

lag_run : threshold_as_parsed healthy_write_lag_key 500 (lag_of (codes "many")) ≡ pos 0
unfolding threshold_as_parsed lookup text_eq atoi
lag_run = refl

threshold_lem_example :
    let value = get_or [] healthy_write_lag_key (lag_of (codes "many")).entries in
    let decided = threshold_or_default healthy_write_lag_key 500 (lag_of (codes "many")) in
    let written = threshold_as_parsed healthy_write_lag_key 500 (lag_of (codes "many")) in
    (value ≡ [] → (decided ≡ pos 500) × (written ≡ pos 500))
    × (value ≢ []
        → (atoi value).failed ≡ false
        → (decided ≡ (atoi value).value) × (written ≡ (atoi value).value))
    × (value ≢ []
        → (atoi value).failed ≡ true
        → (decided ≡ pos 500) × (written ≡ (atoi value).value))
threshold_lem_example =
    threshold_lem healthy_write_lag_key 500 (lag_of (codes "many")) default_reads_back

abbrev words : List Text
words = codes "a" ∷ codes "b" ∷ codes "b" ∷ []

contains_run : contains words (codes "b") ≡ some 1
unfolding contains text_eq
contains_run = refl

abbrev labels : Dict Text
labels = (codes "cattle.io/x", codes "1") ∷ (codes "app", codes "ts") ∷ []

abbrev app_only : Dict Text
app_only = (codes "app", codes "ts") ∷ []

abbrev no_labels : Dict Text
no_labels = []

not_in_app_only : lookup (codes "cattle.io/x") app_only ≡ none
unfolding lookup text_eq
not_in_app_only = refl

not_in_none : lookup (codes "app") no_labels ≡ none
unfolding lookup
not_in_none = refl

ip4_run : has_ip4_prefix (codes "10.0.0.1:8107") ≡ true
unfolding has_ip4_prefix
ip4_run = refl
