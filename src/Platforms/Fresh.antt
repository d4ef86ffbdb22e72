-- ===== src/Platforms/Fresh.antt =====
-- `findNewRecordID` in dns/providers/baidu.go.
use tu_dns.Prelude.{
  ℕ, zero, suc, ◌+◌, ◌≤◌, ◌≡◌, refl, sym, Bool, true, false, ◌||◌, List, [], ◌∷◌, arith, inl, inr,
  ◌⊎◌, Bool-cases, All, All-map, some, if◌then◌else◌,
}
use tu_dns.Text.{Text, Letters, is_empty, text_eq}
use tu_dns.Text.Laws.{text_eq_refl}
use tu_dns.Result.{Result, ok, err, ok-injective}
use tu_dns.Dns.{Zone, RecordInput, RemoteRecord}
use tu_dns.Platforms.{◌>>=◌, echo}
use tu_dns.Platforms.Yields.{Yields, returned, Yields-after, yielded}
use tu_dns.Platforms.Baidu.{
  BaiduClient, Runtime, has_key, pick_new, matching_record_ids, look_for, retry, find_new_record_id,
  create_record, ready,
}

-- The loop returns what it has found so far, or a key that was not there before.
pick_new-All :
    (P : Text → Type 0) (before : List Text) (found : Text) (ids : List Text)
    → All P ids
    → (id : Text) → pick_new before found ids ≡ ok id
    → (id ≡ found) ⊎ (P id × (has_key id before ≡ false))
unfolding pick_new
pick_new-All P before found [] h id e = inl (sym (ok-injective found id e))
pick_new-All P before found (k ∷ ids) h id e = elim (Bool-cases (has_key k before)) [
  | inl old ↦ pick_new-All P before found ids h.1 id (rw old at e)
  | inr new ↦ elim (Bool-cases (is_empty found)) [
    | inl first ↦ elim (pick_new-All P before k ids h.1 id (rw (new, first) at e)) [
      | inl same ↦ inr (rw same (h.0, new))
      | inr later ↦ inr later
    ]
    | inr second ↦ let w = rw (new, second) at e in cc
  ]
]

any_later : {b : Bool} (a : Bool) → b ≡ true → (a || b) ≡ true
any_later true h = refl
any_later false h = h

has_keys : (ids : List Text) → All (λ id. has_key id ids ≡ true) ids
has_keys [] = tt
has_keys (k ∷ ids) = (
  rw (text_eq_refl k) refl,
  All-map (λ id. has_key id ids ≡ true) (λ id. has_key id (k ∷ ids) ≡ true)
      (λ id h. any_later (text_eq id k) h) ids (has_keys ids),
)

module _ {A : Type 0} where
  after_ok :
      {B : Type 0} (x : Result B) (f : B → Result A) (a : A)
      → (x >>= f) ≡ ok a
      → (b : B) × ((x ≡ ok b) × (f b ≡ ok a))
  after_ok (ok b) f a e = (b, (refl, e))
  after_ok (err x) f a e = cc

-- A round that finds nothing leaves the result to the next ones.
choose :
    (x again : Result Text) (id : Text)
    → (x >>= (λ found. if is_empty found then again else ok found)) ≡ ok id
    → (again ≡ ok id) ⊎ ((x ≡ ok id) × (is_empty id ≡ false))
choose (err x) again id e = cc
choose (ok found) again id e = elim (Bool-cases (is_empty found)) [
  | inl y ↦ inl (rw y at e)
  | inr n ↦ let same = ok-injective found id (rw n at e) in inr (rw same refl, rw same at n)
]

module _ (l : Letters) (go : Runtime) where
  -- A new record's id: not empty, in one of the three listings behind the creation, and not among the
  -- ids before it.
  abbrev pub IsFresh : ℕ → BaiduClient → Zone → RecordInput → List Text → Text → Type 0
  IsFresh m c z i before id =
      (n : ℕ) × ((1 ≤ n)
        × ((n ≤ 3)
            × ((after : List Text) × ((matching_record_ids l go m n c z i ≡ ok after)
                  × ((has_key id after ≡ true)
                      × ((has_key id before ≡ false) × (is_empty id ≡ false)))))))

  module _
      (keeps : (P : Text → Type 0) (m n : ℕ) (ids : List Text)
        → All P ids
        → All P (go.in_order m n ids))
      (m : ℕ) (c : BaiduClient) (z : Zone) (i : RecordInput) (before : List Text) where
    -- One round.
    looked_for :
        (n : ℕ) (id : Text)
        → 1 ≤ n
        → n ≤ 3
        → look_for l go m n c z i before ≡ ok id
        → is_empty id ≡ false
        → IsFresh m c z i before id
    unfolding look_for
    looked_for n id lo hi e full = round (matching_record_ids l go m n c z i) refl e
      where
        round :
            (after : Result (List Text))
            → matching_record_ids l go m n c z i ≡ after
            → (after >>= (λ ids. pick_new before [] (go.in_order m n ids))) ≡ ok id
            → IsFresh m c z i before id
        round (err x) k e = cc
        round (ok after) k e =
            elim (pick_new-All (λ x. has_key x after ≡ true) before [] _
              (keeps _ m n after (has_keys after)) id e) [
                | inl none ↦ let w : is_empty id ≡ true = rw none refl in cc
                | inr (there, new) ↦ (n, (lo, (hi, (after, (k, (there, (new, full)))))))
              ]

    retried :
        (left attempt : ℕ) (id : Text)
        → attempt + left ≤ 3
        → retry l go left attempt m c z i before ≡ ok id
        → IsFresh m c z i before id
    unfolding retry
    retried zero attempt id b e = cc
    retried (suc left) attempt id b e =
        elim (choose (go.pause m attempt >>= (λ _. look_for l go m (attempt + 1) c z i before))
          (retry l go left (attempt + 1) m c z i before) id e) [
            | inl again ↦ retried left (attempt + 1) id (omega arith) again
            | inr (now, full) ↦
                let paused =
                  after_ok (go.pause m attempt) (λ _. look_for l go m (attempt + 1) c z i before) id
                    now in
                looked_for (attempt + 1) id (omega arith) (omega arith) (paused.1.1) full
          ]

    found_lem :
        (id : Text) → find_new_record_id l go m c z i before ≡ ok id → IsFresh m c z i before id
    unfolding find_new_record_id
    found_lem id e =
        elim (choose (look_for l go m 1 c z i before) (retry l go 2 1 m c z i before) id e) [
          | inl again ↦ retried 2 1 id (omega arith) again
          | inr (now, full) ↦ looked_for 1 id (omega arith) (omega arith) now full
        ]

  ready_lem : (m : ℕ) (c d : BaiduClient) → ready l go (some c) m ≡ ok d → d ≡ c
  unfolding ready
  ready_lem m c d e =
      let done = after_ok (go.context_error m) (λ _. ok c) d e in sym (ok-injective c d done.1.1)

  module _
      (keeps : (P : Text → Type 0) (m n : ℕ) (ids : List Text)
        → All P ids
        → All P (go.in_order m n ids))
      (m : ℕ) (c : BaiduClient) (z : Zone) (i : RecordInput) where
    abbrev IsNewRecord : RemoteRecord → Type 0
    IsNewRecord r =
        (before : List Text) × ((matching_record_ids l go m 0 c z i ≡ ok before)
          × IsFresh m c z i before r.remote_id)

    -- The calls of a creation, one after the other.
    last_step :
        (d : BaiduClient) (before : List Text) (id : Text)
        → ready l go (some c) m ≡ ok d
        → matching_record_ids l go m 0 d z i ≡ ok before
        → find_new_record_id l go m d z i before ≡ ok id
        → Yields IsNewRecord (ok (echo l id i i.line))
    last_step d before id r b f =
        let same = ready_lem m c d r in
        returned (before, (rw same at b, found_lem keeps m c z i before id (rw same at f)))

    creates : Yields IsNewRecord (create_record l go (some c) m z i)
    unfolding create_record
    creates = search (Yields-after, last_step) depth 12

  -- What a creation returns is the id of a new record: the listing before the request does not have
  -- it, and one of the three listings behind the request does. A loop over a map visits no key that
  -- the map does not have.
  pub create_record-IsFresh :
      ((P : Text → Type 0) (m n : ℕ) (ids : List Text) → All P ids → All P (go.in_order m n ids))
      → (m : ℕ) (c : BaiduClient) (z : Zone) (i : RecordInput) (r : RemoteRecord)
      → create_record l go (some c) m z i ≡ ok r
      → (before : List Text) × ((matching_record_ids l go m 0 c z i ≡ ok before)
          × IsFresh m c z i before r.remote_id)
  create_record-IsFresh keeps m c z i r e = yielded _ r (creates keeps m c z i) e
