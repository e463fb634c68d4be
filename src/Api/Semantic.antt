-- ===== src/Api/Semantic.antt =====
-- `apiequality.Semantic.DeepEqual`, by the type of what is compared.
use typesense_operator.Base.{Text, ◌≡◌, Bool, true, Option, List}
use typesense_operator.Base.Dict.{Dict, lookup}
use typesense_operator.Kube.{ParentReference, Volume, VolumeMount}

pub record Semantic : Type 0 where
  pub equal_maps : Dict Text → Dict Text → Bool
  pub equal_values : Text → Text → Bool
  pub equal_pointers : Option Text → Option Text → Bool
  pub equal_lists : List Text → List Text → Bool
  pub equal_parents : ParentReference → ParentReference → Bool
  pub equal_volumes : List Volume → List Volume → Bool
  pub equal_mounts : List VolumeMount → List VolumeMount → Bool

-- Its documented behaviour on equal arguments. Maps are equal that have the same entries.
pub record IsReflexive (E : Semantic) : Type 0 where
  pub maps : (m : Dict Text) → E.equal_maps m m ≡ true
  pub same_maps :
      (m n : Dict Text) → ((k : Text) → lookup k m ≡ lookup k n) → E.equal_maps m n ≡ true
  pub values : (v : Text) → E.equal_values v v ≡ true
  pub pointers : (p : Option Text) → E.equal_pointers p p ≡ true
  pub lists : (l : List Text) → E.equal_lists l l ≡ true
  pub parents : (p : ParentReference) → E.equal_parents p p ≡ true
  pub volumes : (l : List Volume) → E.equal_volumes l l ≡ true
  pub mounts : (l : List VolumeMount) → E.equal_mounts l l ≡ true
