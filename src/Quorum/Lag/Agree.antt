-- ===== src/Quorum/Lag/Agree.antt =====
-- How the two ways to read a lag threshold differ.
use typesense_operator.Base.{Text, text_eq_iff, decimal, atoi, ℕ, ◌≡◌, ◌≢◌, true, false, [], arith}
use typesense_operator.Base.Int.{pos}
use typesense_operator.Base.Dict.{get_or}
use typesense_operator.Api.{ConfigMap}
use typesense_operator.Quorum.Lag.{threshold_or_default, threshold_as_parsed}

-- The threshold on which `ReconcileQuorum` decides and the one that `getHealthyLagThresholds`
-- writes into the annotations of the pods, if the default is a number that `Atoi` reads back: both
-- are the default where the configured value is empty or missing, and both are its number where it
-- is one. Where it is no number, the first is the default and the second whatever `Atoi` returned
-- beside the error.
pub threshold_lem :
    (key : Text) (default : ℕ) (cm : ConfigMap)
    → atoi (decimal default) ≡ record { value = pos default; failed = false }
    → let value = get_or [] key cm.entries in
      let decided = threshold_or_default key default cm in
      let written = threshold_as_parsed key default cm in
      (value ≡ [] → (decided ≡ pos default) × (written ≡ pos default))
      × (value ≢ []
          → (atoi value).failed ≡ false
          → (decided ≡ (atoi value).value) × (written ≡ (atoi value).value))
      × (value ≢ []
          → (atoi value).failed ≡ true
          → (decided ≡ pos default) × (written ≡ (atoi value).value))
unfolding threshold_as_parsed threshold_or_default
threshold_lem key default cm h =
    let value = get_or [] key cm.entries in
    (
      λ e. ground (arith, text_eq_iff value []),
      λ ne n. ground (arith, text_eq_iff value []),
      λ ne n. ground (arith, text_eq_iff value []),
    )
