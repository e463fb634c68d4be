-- ===== src/Tests/Tables.antt =====
-- Tables of objects by their keys, as an API server keeps them: they keep the promises that
-- `Stored` asks for.
use typesense_operator.Base.{
  Text, codes, text_eq, text_eq_iff, ◌≡◌, refl, sym, ap, ◌∙◌, ◌≢◌, inl, inr, Bool, Bool-cases, true,
  false, ◌&&◌, Option, none, some, arith, if-true, if-false, if◌then◌else◌,
}
use typesense_operator.Base.Exec.{Result, ok, err, not_found, other, ok-injective}
use typesense_operator.Kube.{Meta}
use typesense_operator.Api.{ObjectKey}
use typesense_operator.Api.Client.{Client, create_object, patch_object, delete_object}
use typesense_operator.Api.Client.Stored.{Stored, IsStored, key_of, Puts}

abbrev pub same_key : ObjectKey → ObjectKey → Bool
same_key a b = text_eq a.namespace b.namespace && text_eq a.name b.name

abbrev pub Table : Type 0 → Type 0
Table O = ObjectKey → Option O

-- A table may hold an object under a key that is not its own; it cannot be read.
abbrev entry : {O : Type 0} → (O → ObjectKey) → ObjectKey → Option O → Result O
entry own key none = err (not_found key.name)
entry own key (some o) =
    if same_key (own o) key then ok o else err (other (codes "under a wrong key"))

module _ {O : Type 0} (meta : O → Meta) where
  abbrev pub own_key : O → ObjectKey
  own_key o = record { namespace = (meta o).namespace; name = (meta o).name }

  abbrev pub read_entry : ObjectKey → Table O → Result O
  read_entry key t = entry own_key key (t key)

  abbrev pub put_entry : O → Table O → Table O
  put_entry o t k = if same_key k (own_key o) then some o else t k

abbrev pub remove_entry : {O : Type 0} → ObjectKey → Table O → Table O
remove_entry key t k = if same_key k key then none else t k

same_key_self : (k : ObjectKey) → same_key k k ≡ true
same_key_self k = ground (arith, text_eq_iff k.namespace k.namespace, text_eq_iff k.name k.name)

same_key_eq : (a b : ObjectKey) → same_key a b ≡ true → a ≡ b
same_key_eq a b h =
    let same_namespace : a.namespace ≡ b.namespace =
      ground (arith, text_eq_iff a.namespace b.namespace) in
    let same_name : a.name ≡ b.name = ground (arith, text_eq_iff a.name b.name) in cc

same_key_ne : (a b : ObjectKey) → a ≢ b → same_key a b ≡ false
same_key_ne a b ne = elim (Bool-cases (same_key a b)) [
  | inl h ↦ absurd (ne (same_key_eq a b h))
  | inr h ↦ h
]

-- The entry that is read stands under its own key.
read_entry-ok :
    {O : Type 0} (meta : O → Meta) (key : ObjectKey) (f : Option O) {o : O}
    → entry (own_key meta) key f ≡ ok o
    → (f ≡ some o) × (own_key meta o ≡ key)
read_entry-ok meta key none h = absurd (ground arith)
read_entry-ok meta key (some p) {o} h = elim (Bool-cases (same_key (own_key meta p) key)) [
  | inr differs ↦ absurd (ground (arith, rw differs at h))
  | inl same ↦
      let e : p ≡ o = ok-injective (rw same at h) in
      (ap some e, ap (own_key meta) (sym e) ∙ same_key_eq (own_key meta p) key same)
]

read_entry-missing :
    {O : Type 0} (meta : O → Meta) (key : ObjectKey) (f : Option O) {m : Text}
    → entry (own_key meta) key f ≡ err (not_found m)
    → f ≡ none
read_entry-missing meta key none h = refl
read_entry-missing meta key (some p) h = elim (Bool-cases (same_key (own_key meta p) key)) [
  | inr differs ↦ absurd (ground (arith, rw differs at h))
  | inl same ↦ absurd (ground (arith, rw same at h))
]

module _ {C : Client} {O : Type 0} (S : Stored C O) where
  abbrev table : C.State → Table O
  table s k = S.view k s

  -- A server that keeps a table of the objects keeps the promises on them.
  pub tables-IsStored :
      ((key : ObjectKey) (s : C.State) → S.get key s ≡ (read_entry S.meta key (table s), s))
      → ((o : O) (s : C.State) (k : ObjectKey)
          → S.view k (C.send (create_object (S.wrap o)) s).1 ≡ put_entry S.meta o (table s) k)
      → ((old o : O) (s : C.State) (k : ObjectKey)
          → S.view k (C.send (patch_object (S.wrap old) (S.wrap o)) s).1
            ≡ put_entry S.meta o (table s) k)
      → ((key : ObjectKey) (s : C.State) (k : ObjectKey)
          → S.view k (C.send (delete_object S.kind key.namespace key.name) s).1
            ≡ remove_entry key (table s) k)
      → ((o : O) → S.Agrees o o)
      → IsStored S
  tables-IsStored reads creates patches deletes agrees = record {
    get_ok = λ key s {o} h.
        read_entry-ok S.meta key (S.view key s) {o = o} (ap (λ p. p.0) (sym (reads key s)) ∙ h);
    get_missing = λ key s {m} h.
        read_entry-missing S.meta key (S.view key s) {m = m}
          (ap (λ p. p.0) (sym (reads key s)) ∙ h);
    get_keeps = λ key k s. ap (λ p. S.view k p.1) (reads key s);
    put = λ o r s p _. (o, stored o r s (key_of S o) p ∙ here o s, agrees o);
    put_keeps = λ o r s k p ne. stored o r s k p ∙ if-false _ _ _ (same_key_ne k (key_of S o) ne);
    remove = λ key s _. deletes key s key ∙ if-true _ _ _ (same_key_self key);
    remove_keeps = λ key k s ne. deletes key s k ∙ if-false _ _ _ (same_key_ne k key ne);
  }
    where
      here : (o : O) (s : C.State) → put_entry S.meta o (table s) (key_of S o) ≡ some o
      here o s = if-true _ _ _ (same_key_self (key_of S o))

      stored :
          (o : O) (r : _) (s : C.State) (k : ObjectKey)
          → Puts S s o r
          → S.view k (C.send r s).1 ≡ put_entry S.meta o (table s) k
      stored o r s k (inl e) = rw e (creates o s k)
      stored o r s k (inr (old, e, _)) = rw e (patches old o s k)
