-- ===== src/Quorum/Lag.antt =====
-- The lag thresholds: `getHealthyWriteLagThreshold`, `getHealthyReadLagThreshold` and
-- `getHealthyLagThresholds`.
pub mod Agree
use typesense_operator.Base.{
  Text, codes, text_eq, decimal, atoi, ℕ, Bool, true, false, Option, none, some, [], ◌∷◌,
  if◌then◌else◌,
}
use typesense_operator.Base.Int.{ℤ, pos}
use typesense_operator.Base.Dict.{Dict, lookup, get_or}
use typesense_operator.Base.Exec.{Result, ok, pure, ◌>>=◌, on_result, or_return}
use typesense_operator.Api.{ConfigMap, TypesenseCluster}
use typesense_operator.Api.Client.{Client, M, read}

abbrev pub healthy_write_lag_default_value : ℕ
healthy_write_lag_default_value = 500

abbrev pub healthy_read_lag_default_value : ℕ
healthy_read_lag_default_value = 1000

abbrev pub healthy_write_lag_key : Text
healthy_write_lag_key = codes "TYPESENSE_HEALTHY_WRITE_LAG"

abbrev pub healthy_read_lag_key : Text
healthy_read_lag_key = codes "TYPESENSE_HEALTHY_READ_LAG"

-- The value of one key: the default where it is missing, empty, or no number.
unfoldable pub threshold_or_default : Text → ℕ → ConfigMap → ℤ
unfolding lookup text_eq atoi
threshold_or_default key default cm =
    let value : Text = get_or [] key cm.entries in
    if text_eq value []
    then pos default
    else if (atoi value).failed
    then pos default
    else (atoi value).value

-- The value as `getHealthyLagThresholds` reads it: what `Atoi` returns, error or not.
unfoldable pub threshold_as_parsed : Text → ℕ → ConfigMap → ℤ
unfolding lookup text_eq atoi decimal
threshold_as_parsed key default cm =
    let value : Text = get_or [] key cm.entries in
    (atoi (if text_eq value [] then decimal default else value)).value

module _ (C : Client) where
  -- The guards that the three functions share: no configuration is named, or it cannot be read.
  unfoldable pub with_configuration :
      {A : Type 0} → Text → Option Text → A → (ConfigMap → A) → M C A
  with_configuration namespace none default f = pure default
  with_configuration namespace (some name) default f =
      or_return (read C (C.get_config_map (record { namespace = namespace; name = name })))
        (λ _. pure default) λ cm. pure (f cm)

  unfoldable pub get_healthy_write_lag_threshold : TypesenseCluster → M C ℤ
  get_healthy_write_lag_threshold ts =
      with_configuration ts.namespace ts.additional_server_configuration
        (pos healthy_write_lag_default_value)
        (threshold_or_default healthy_write_lag_key healthy_write_lag_default_value)

  unfoldable pub get_healthy_read_lag_threshold : TypesenseCluster → M C ℤ
  get_healthy_read_lag_threshold ts =
      with_configuration ts.namespace ts.additional_server_configuration
        (pos healthy_read_lag_default_value)
        (threshold_or_default healthy_read_lag_key healthy_read_lag_default_value)

  -- The read and the write threshold, from one config map.
  unfoldable pub get_healthy_lag_thresholds : TypesenseCluster → M C (ℤ × ℤ)
  get_healthy_lag_thresholds ts =
      with_configuration ts.namespace ts.additional_server_configuration
        (pos healthy_read_lag_default_value, pos healthy_write_lag_default_value)
        λ cm. (
          threshold_as_parsed healthy_read_lag_key healthy_read_lag_default_value cm,
          threshold_as_parsed healthy_write_lag_key healthy_write_lag_default_value cm,
        )
