-- ===== src/Api/Client/Stored.antt =====
-- The objects of one kind in the API server, seen as a map from their keys: what the documentation
-- of the API promises about reading and writing them, as an interface for the theorems on what a
-- pass leaves behind.
use typesense_operator.Base.{◌≡◌, refl, ◌≢◌, ◌⊎◌, inl, inr, Option, none, some, arith, ap, sym, ◌∙◌}
use native.Mathlib.Decide.{ℕ_discrete}
use typesense_operator.Base.Exec.{
  Exec, Error, Result, Result-cases, ok, err, not_found, other, panic, pure, ◌>>=◌, on_result,
  found, attempt,
}
use typesense_operator.Kube.{Meta, Object, Kind}
use typesense_operator.Api.{ObjectKey, TypesenseCluster}
use typesense_operator.Api.Client.{
  Client, World, M, Write, read, request, find, create_owned, create_object, patch_object,
  delete_object,
}

ObjectKey-discrete : Discrete ObjectKey
ObjectKey-discrete = hlevel ℕ_discrete

-- One kind of objects: how they are read, and how the server's state shows them. An object that is
-- read back `Agrees` with the one that was sent: the server fills in the rest.
pub record Stored (C : Client) (O : Type 0) : Type 1 where
  pub get : ObjectKey → Exec C.State (Result O)
  pub wrap : O → Object
  pub kind : Kind
  pub meta : O → Meta
  pub Agrees : O → O → Type 0
  pub view : ObjectKey → C.State → Option O

module _ {C : Client} {O : Type 0} (S : Stored C O) where
  abbrev pub key_of : O → ObjectKey
  key_of o = record { namespace = (S.meta o).namespace; name = (S.meta o).name }

  -- The request creates the object, or patches the one that is there into it.
  abbrev pub Puts : C.State → O → Write → Type 0
  Puts s o r =
      (r ≡ create_object (S.wrap o))
      ⊎ ((old : O) × (r ≡ patch_object (S.wrap old) (S.wrap o)) × (S.view (key_of o) s ≡ some old))

  -- The object under a key satisfies `P`.
  abbrev pub Holds : (O → Type 0) → ObjectKey → C.State → Type 0
  Holds P key s = (o : O) × (S.view key s ≡ some o) × P o

  -- The promises of the server.
  pub record IsStored : Type 0 where
    pub get_ok :
        (key : ObjectKey) (s : C.State) {o : O}
        → (S.get key s).0 ≡ ok o
        → (S.view key s ≡ some o) × (key_of o ≡ key)
    pub get_missing :
        (key : ObjectKey) (s : C.State) {m : _}
        → (S.get key s).0 ≡ err (not_found m)
        → S.view key s ≡ none
    pub get_keeps : (key k : ObjectKey) (s : C.State) → S.view k (S.get key s).1 ≡ S.view k s
    pub put :
        (o : O) (r : Write) (s : C.State)
        → Puts s o r
        → (C.send r s).0 ≡ ok tt
        → Holds (S.Agrees o) (key_of o) (C.send r s).1
    pub put_keeps :
        (o : O) (r : Write) (s : C.State) (k : ObjectKey)
        → Puts s o r
        → k ≢ key_of o
        → S.view k (C.send r s).1 ≡ S.view k s
    pub remove :
        (key : ObjectKey) (s : C.State)
        → (C.send (delete_object S.kind key.namespace key.name) s).0 ≡ ok tt
        → S.view key (C.send (delete_object S.kind key.namespace key.name) s).1 ≡ none
    pub remove_keeps :
        (key k : ObjectKey) (s : C.State)
        → k ≢ key
        → S.view k (C.send (delete_object S.kind key.namespace key.name) s).1 ≡ S.view k s

  module _ (I : IsStored) where
    -- Reading sends nothing and leaves the objects alone.
    pub find_keeps :
        (key k : ObjectKey) (w : World C)
        → let v = (find C (S.get key) w).1 in
          (S.view k v.state ≡ S.view k w.state) × (v.writes ≡ w.writes)
    unfolding find read ◌>>=◌ pure
    find_keeps key k w = (I.get_keeps key k w.state, refl)

    -- What was found is what is there.
    pub find_lem :
        (key : ObjectKey) (w : World C) {f : Option O}
        → (find C (S.get key) w).0 ≡ ok f
        → (S.view key w.state ≡ f) × ((o : O) → f ≡ some o → key_of o ≡ key)
    unfolding find read ◌>>=◌ pure found
    find_lem key w {f} h = elim (Result-cases (S.get key w.state).0) [
      | inr (o, e) ↦
          let p = I.get_ok key w.state {o = o} e in
          let same : f ≡ some o = ground arith in
          (p.0 ∙ sym same, λ a g. (let e : a ≡ o = cc in ap key_of e ∙ p.1))
      | inl (e, q) ↦ missing e q
    ]
      where
        missing :
            (e : Error)
            → (S.get key w.state).0 ≡ err e
            → (S.view key w.state ≡ f) × ((o : O) → f ≡ some o → key_of o ≡ key)
        missing (not_found m) q =
            let same : f ≡ none = ground arith in
            (I.get_missing key w.state {m = m} q ∙ sym same, λ a g. ground arith)
        missing (other m) q = absurd (ground arith)
        missing (panic m) q = absurd (ground arith)

    -- A request that succeeds leaves what it sent, and the other objects.
    pub put_lem :
        (o : O) (r : Write) (w : World C)
        → Puts w.state o r
        → (request C r w).0 ≡ ok tt
        → let s = (request C r w).1.state in
          Holds (S.Agrees o) (key_of o) s
          × ((k : ObjectKey) → k ≢ key_of o → S.view k s ≡ S.view k w.state)
    unfolding request
    put_lem o r w p h = (I.put o r w.state p h, λ k ne. I.put_keeps o r w.state k p ne)

    -- So does a deletion: the object is gone, the others stay.
    pub delete_lem :
        (key : ObjectKey) (w : World C)
        → let m = request C (delete_object S.kind key.namespace key.name) in
          (m w).0 ≡ ok tt
          → (S.view key (m w).1.state ≡ none)
            × ((k : ObjectKey) → k ≢ key → S.view k (m w).1.state ≡ S.view k w.state)
    unfolding request
    delete_lem key w h = (I.remove key w.state h, λ k ne. I.remove_keeps key k w.state ne)

    -- What is gone stays gone when something is deleted.
    pub delete_gone :
        (key k : ObjectKey) (w : World C)
        → let m = request C (delete_object S.kind key.namespace key.name) in
          (m w).0 ≡ ok tt → S.view k w.state ≡ none → S.view k (m w).1.state ≡ none
    delete_gone key k w h gone = elim (ObjectKey-discrete k key) [
      | yes p ↦ rw p (delete_lem key w h).0
      | no ne ↦ (delete_lem key w h).1 k ne ∙ gone
    ]

    -- What is there after a deletion was there before.
    pub delete_only :
        (key k : ObjectKey) (w : World C) {o : O}
        → let m = request C (delete_object S.kind key.namespace key.name) in
          (m w).0 ≡ ok tt → S.view k (m w).1.state ≡ some o → S.view k w.state ≡ some o
    delete_only key k w {o} h there = elim (ObjectKey-discrete k key) [
      | yes p ↦ absurd (cc (p, (delete_lem key w h).0, there))
      | no ne ↦ sym ((delete_lem key w h).1 k ne) ∙ there
    ]

    -- An object that was created with an owner.
    pub create_owned_lem :
        (ts : TypesenseCluster) (o : O) (w : World C)
        → (create_owned C ts (S.wrap o) w).0 ≡ ok tt
        → let s = (create_owned C ts (S.wrap o) w).1.state in
          Holds (S.Agrees o) (key_of o) s
          × ((k : ObjectKey) → k ≢ key_of o → S.view k s ≡ S.view k w.state)
    unfolding create_owned on_result pure
    create_owned_lem ts o w h = elim (Result-cases (C.own ts (S.wrap o))) [
      | inl (e, p) ↦ absurd (ground arith)
      | inr (u, p) ↦ rw p (put_lem o (create_object (S.wrap o)) w (inl refl) (rw p at h))
    ]

    -- A call that looks an object up sends nothing if the rest sends nothing for what is there.
    pub find_then :
        {B : Type 0} (key : ObjectKey) (w : World C) (rest : Option O → M C (Result B))
        → let v = (find C (S.get key) w).1 in
          ((f : Option O) → S.view key w.state ≡ f → (rest f v).1.writes ≡ v.writes)
          → (attempt (find C (S.get key)) rest w).1.writes ≡ w.writes
    unfolding ◌>>=◌ on_result pure
    find_then key w rest h = elim (Result-cases (find C (S.get key) w).0) [
      | inl (e, p) ↦ rw p (find_keeps key key w).1
      | inr (f, p) ↦ rw p (h f (find_lem key w {f = f} p).0 ∙ (find_keeps key key w).1)
    ]
