-- ===== src/Transactions/Claims.antt =====
-- The requests that use a transaction and the reaper, in all interleavings: a claimed transaction is
-- never taken for idle.
use rowset_studio.Common.{
  ℕ, ◌+◌, ◌≤◌, ◌≡◌, ◌≢◌, refl, sym, subst, ap, Bool, true, false, not, ◌&&◌, List, [], ◌∷◌, ◌++◌,
  Bytes, bytes_eq, bytes_eq_iff, if◌then◌else◌, Bool-cases, inl, inr, arith,
}
use rowset_studio.Transactions.{
  TransactionEntry, Txns, lookup_txn, delete_if, delete_txn, update_txn, is_idle,
  reap_idle_transactions, close_connection_transactions, Claim, not_found, expired, claimed,
  claim_of, mark_claimed, mark_released, transaction_entry, release_entry, add_txn,
}

-- The table, and the identifiers of the claims that are not released.
pub record Claims : Type 0 where
  pub txns : Txns
  pub claims : List Bytes

-- How many requests use a transaction.
unfoldable pub claim_count : Bytes → List Bytes → ℕ
unfolding bytes_eq
claim_count id [] = 0
claim_count id (c ∷ claims) =
    let rest = claim_count id claims in if bytes_eq id c then 1 + rest else rest

abbrev claims_after : Bytes → Claim → List Bytes → List Bytes
claims_after id (claimed e) claims = id ∷ claims
claims_after id _ claims = claims

module _ (shared : Bool) where
  -- The critical sections on the table, each at its time.
  pub data Step : Claims → Claims → Type 0 where
    claim :
        (s : Claims) (now : ℕ) (user_id connection_id id : Bytes)
        → Step s (record {
          txns = (transaction_entry shared now user_id connection_id id s.txns).0;
          claims =
              claims_after id
                (transaction_entry shared now user_id connection_id id s.txns).1
                s.claims;
        })
    release :
        (s : Claims) (now : ℕ) (id : Bytes) (before after : List Bytes)
        → s.claims ≡ before ++ (id ∷ after)
        → Step s (record { txns = release_entry now id s.txns; claims = before ++ after })
    -- `finishTransaction`, or `transactionQuery` on a lost transaction, by a request with a claim.
    finish :
        (s : Claims) (id : Bytes)
        → Step s (record { txns = delete_txn id s.txns; claims = s.claims })
    reap :
        (s : Claims) (now : ℕ)
        → Step s (record { txns = reap_idle_transactions shared now s.txns; claims = s.claims })
    close_connection :
        (s : Claims) (connection_id : Bytes)
        → Step s (record {
          txns = close_connection_transactions connection_id s.txns;
          claims = s.claims;
        })
    -- `beginTransaction`'s identifier is new, so no request uses it.
    begin :
        (s : Claims) (now : ℕ) (user_id connection_id id : Bytes)
        → claim_count id s.claims ≡ 0
        → Step s (record { txns = add_txn now user_id connection_id id s.txns; claims = s.claims })

  pub data Reach : Claims → Type 0 where
    here : Reach (record { txns = []; claims = [] })
    next : {s t : Claims} → Reach s → Step s t → Reach t

-- Every entry counts the requests that use it.
abbrev pub Counted : List Bytes → Txns → Type 0
Counted claims [] = Unit
Counted claims ((k, e) ∷ txns) = (e.running ≡ claim_count k claims) × Counted claims txns

delete_if-Counted :
    (p : Bytes → TransactionEntry → Bool) (claims : List Bytes) (txns : Txns)
    → Counted claims txns
    → Counted claims (delete_if p txns)
unfolding delete_if
delete_if-Counted p claims [] h = tt
delete_if-Counted p claims ((k, e) ∷ txns) h = elim (Bool-cases (p k e)) [
  | inl d ↦ rw d (delete_if-Counted p claims txns h.1)
  | inr d ↦ rw d (h.0, delete_if-Counted p claims txns h.1)
]

claim-Counted :
    (now : ℕ) (id : Bytes) (claims : List Bytes) (txns : Txns)
    → Counted claims txns
    → Counted (id ∷ claims) (update_txn (mark_claimed now) id txns)
unfolding update_txn claim_count
claim-Counted now id claims [] h = tt
claim-Counted now id claims ((k, e) ∷ txns) h = elim (Bool-cases (bytes_eq k id)) [
  | inl d ↦ rw d (omega (arith, h.0), claim-Counted now id claims txns h.1)
  | inr d ↦ rw d (h.0, claim-Counted now id claims txns h.1)
]

claim_count-remove :
    (k id : Bytes) (before after : List Bytes)
    → claim_count k (before ++ (id ∷ after))
      ≡ (if bytes_eq k id then 1 else 0) + claim_count k (before ++ after)
unfolding claim_count
claim_count-remove k id [] after = ground arith
claim_count-remove k id (c ∷ before) after = ground (arith, claim_count-remove k id before after)

release-Counted :
    (now : ℕ) (id : Bytes) (before after : List Bytes) (txns : Txns)
    → Counted (before ++ (id ∷ after)) txns
    → Counted (before ++ after) (update_txn (mark_released now) id txns)
unfolding update_txn
release-Counted now id before after [] h = tt
release-Counted now id before after ((k, e) ∷ txns) h =
    let n = claim_count-remove k id before after in
    elim (Bool-cases (bytes_eq k id)) [
      | inl d ↦ rw d (ground (arith, h.0, n, d), release-Counted now id before after txns h.1)
      | inr d ↦ rw d (ground (arith, h.0, n, d), release-Counted now id before after txns h.1)
    ]

transaction_entry-Counted :
    (shared : Bool) (now : ℕ) (user_id connection_id id : Bytes) (claims : List Bytes) (txns : Txns)
    → Counted claims txns
    → (let r = transaction_entry shared now user_id connection_id id txns in
        Counted (claims_after id r.1 claims) r.0)
unfolding transaction_entry delete_txn
transaction_entry-Counted shared now user_id connection_id id claims txns h =
    go (claim_of shared now user_id connection_id (lookup_txn id txns))
  where
    go :
        (c : Claim)
        → (let r : Txns × Claim = elim c [
          | not_found ↦ (txns, not_found)
          | expired ↦ (delete_txn id txns, expired)
          | claimed e ↦ (update_txn (mark_claimed now) id txns, claimed e)
        ] in
            Counted (claims_after id r.1 claims) r.0)
    go not_found = h
    go expired = delete_if-Counted (λ k e. bytes_eq k id) claims txns h
    go (claimed e) = claim-Counted now id claims txns h

busy :
    (shared : Bool) (now : ℕ) (id k : Bytes) (claims : List Bytes) (e : TransactionEntry)
    → e.running ≡ claim_count k claims
    → 1 ≤ claim_count id claims
    → bytes_eq k id ≡ true
    → is_idle shared now e ≡ false
unfolding is_idle
busy shared now id k claims e r n q =
    let c : claim_count k claims ≡ claim_count id claims =
      ap (λ x. claim_count x claims) ((bytes_eq_iff k id).0 q) in
    ground (arith, r, n, c)

reap-claimed :
    (shared : Bool) (now : ℕ) (id : Bytes) (claims : List Bytes) (txns : Txns)
    → Counted claims txns
    → 1 ≤ claim_count id claims
    → lookup_txn id (delete_if (λ k e. is_idle shared now e) txns) ≡ lookup_txn id txns
unfolding delete_if lookup_txn
reap-claimed shared now id claims [] h n = refl
reap-claimed shared now id claims ((k, e) ∷ txns) h n =
    let later = reap-claimed shared now id claims txns h.1 n in
    elim (Bool-cases (bytes_eq k id)) [
      | inl q ↦ rw (q, busy shared now id k claims e h.0 n q) (rw q refl)
      | inr q ↦ elim (Bool-cases (is_idle shared now e)) [
        | inl d ↦ rw (q, d) later
        | inr d ↦ rw (q, d) (rw q later)
      ]
    ]

claim-claimed :
    (shared : Bool) (now : ℕ) (user_id connection_id id : Bytes) (claims : List Bytes) (txns : Txns)
    → Counted claims txns
    → 1 ≤ claim_count id claims
    → claim_of shared now user_id connection_id (lookup_txn id txns) ≢ expired
unfolding claim_of lookup_txn
claim-claimed shared now user_id connection_id id claims [] h n = λ e. cc
claim-claimed shared now user_id connection_id id claims ((k, t) ∷ txns) h n =
    elim (Bool-cases (bytes_eq k id)) [
      | inl q ↦
          rw (q, busy shared now id k claims t h.0 n q)
            (tests (bytes_eq t.user_id user_id && bytes_eq t.connection_id connection_id) t)
      | inr q ↦ rw q (claim-claimed shared now user_id connection_id id claims txns h.1 n)
    ]
  where
    tests : (b : Bool) (t : TransactionEntry) → (if not b then not_found else claimed t) ≢ expired
    tests true t e = cc
    tests false t e = cc

module _ (shared : Bool) where
  Step-Counted :
      {s t : Claims} → Step shared s t → Counted s.claims s.txns → Counted t.claims t.txns
  unfolding release_entry delete_txn reap_idle_transactions close_connection_transactions add_txn
  Step-Counted (claim s now user_id connection_id id) h =
      transaction_entry-Counted shared now user_id connection_id id s.claims s.txns h
  Step-Counted (release s now id before after e) h =
      release-Counted now id before after s.txns (subst (λ c. Counted c s.txns) e h)
  Step-Counted (finish s id) h = delete_if-Counted (λ k e. bytes_eq k id) s.claims s.txns h
  Step-Counted (reap s now) h = delete_if-Counted (λ k e. is_idle shared now e) s.claims s.txns h
  Step-Counted (close_connection s connection_id) h =
      delete_if-Counted (λ k e. bytes_eq e.connection_id connection_id) s.claims s.txns h
  Step-Counted (begin s now user_id connection_id id e) h =
      (sym e, delete_if-Counted (λ k e. bytes_eq k id) s.claims s.txns h)

  -- In every state of the table that the critical sections lead to, an entry's count `running` is the
  -- number of the requests that have claimed it and not released it.
  pub Reach-Counted : {s : Claims} → Reach shared s → Counted s.claims s.txns
  Reach-Counted here = tt
  Reach-Counted (next run step) = Step-Counted step (Reach-Counted run)

  -- In every such state, while some request has a transaction claimed, neither the reaper at any time
  -- nor another request's claim takes it for idle: the reaper leaves its entry as it is, and no claim
  -- finds it expired.
  pub claimed-kept :
      {s : Claims} (id : Bytes) (now : ℕ) (user_id connection_id : Bytes)
      → Reach shared s
      → 1 ≤ claim_count id s.claims
      → (lookup_txn id (reap_idle_transactions shared now s.txns) ≡ lookup_txn id s.txns)
        × ((transaction_entry shared now user_id connection_id id s.txns).1 ≢ expired)
  unfolding reap_idle_transactions transaction_entry
  claimed-kept {s} id now user_id connection_id run n = (
    reap-claimed shared now id s.claims s.txns (Reach-Counted run) n,
    found (claim_of shared now user_id connection_id (lookup_txn id s.txns))
        (claim-claimed shared now user_id connection_id id s.claims s.txns (Reach-Counted run) n),
  )
    where
      found :
          (c : Claim)
          → c ≢ expired
          → (let r : Txns × Claim = elim c [
            | not_found ↦ (s.txns, not_found)
            | expired ↦ (delete_txn id s.txns, expired)
            | claimed e ↦ (update_txn (mark_claimed now) id s.txns, claimed e)
          ] in
              r.1 ≢ expired)
      found not_found h = h
      found expired h = h
      found (claimed e) h = h
