-- ===== src/Source/Owners.antt =====
-- src/source/transaction.rs: the addresses that a transaction has an entry for.
use alpamayo.Prelude.{
  ℕ, ◌≡◌, refl, ap, ◌∙◌, Option, none, some, Bool, true, false, ◌||◌, List, [], ◌∷◌, ◌++◌, map,
  arith, ◌==◌, ==_iff, Bool-cases, Option-cases, inl, inr,
}
use alpamayo.Source.Transaction.{SignatureForAddress}
use alpamayo.Source.Convert.{
  TransactionTokenBalance, Meta, contains, amounts, changed, owners, new, new_token_owner, sfa_of,
}

-- Whether an owner parses to the address.
abbrev pub names : (ℕ → Option ℕ) → ℕ → ℕ → Bool
names parse address owner = elim (parse owner) [ none ↦ false | some x ↦ x == address ]

abbrev any_names : (ℕ → Option ℕ) → ℕ → List ℕ → Bool
any_names parse address [] = false
any_names parse address (o ∷ os) = names parse address o || any_names parse address os

abbrev pub owned : (ℕ → Option ℕ) → ℕ → List TransactionTokenBalance → Bool
owned parse address [] = false
owned parse address (b ∷ bs) = names parse address b.owner || owned parse address bs

abbrev given : ℕ → List (ℕ × Bool) → Bool
given address [] = false
given address ((a, c) ∷ l) = (a == address) || given address l

abbrev pub has_entry : {E : Type 0} → ℕ → List (SignatureForAddress E) → Bool
has_entry address [] = false
has_entry address (s ∷ l) = (s.address == address) || has_entry address l

contains-names :
    (parse : ℕ → Option ℕ) (address o : ℕ) (os : List ℕ)
    → contains o os ≡ true
    → (names parse address o || any_names parse address os) ≡ any_names parse address os
contains-names parse address o [] e = absurd (ground arith)
contains-names parse address o (x ∷ os) e = elim (Bool-cases (x == o)) [
  | inl q ↦
      let same : names parse address x ≡ names parse address o =
        ap (names parse address) ((==_iff x o).0 q) in
      ground (arith, same)
  | inr q ↦
      let deep : contains o os ≡ true = ground (arith, e, q) in
      ground (arith, contains-names parse address o os deep)
]

-- An address that is not an account key gets an entry just for an owner that is not seen yet.
owners-new :
    (parse : ℕ → Option ℕ) (direct owner_changed seen : List ℕ) (bs : List TransactionTokenBalance)
    (address : ℕ)
    → contains address direct ≡ false
    → (given address (owners parse direct owner_changed seen bs) || any_names parse address seen)
      ≡ (owned parse address bs || any_names parse address seen)
unfolding owners
owners-new parse direct owner_changed seen [] address d = refl
owners-new parse direct owner_changed seen (b ∷ bs) address d =
    elim (Bool-cases (contains b.owner seen)) [
      | inl c ↦
          let rest = owners-new parse direct owner_changed seen bs address d in
          let known = contains-names parse address b.owner seen c in
          rw (owners, c) (ground (arith, rest, known))
      | inr c ↦
          let rest = owners-new parse direct owner_changed (b.owner ∷ seen) bs address d in
          elim (Option-cases (parse b.owner)) [
            | inl z ↦
                let none_named : names parse address b.owner ≡ false = rw (names, z) in
                rw (owners, c, z) (ground (arith, rest, none_named))
            | inr (x, z) ↦
                let named : names parse address b.owner ≡ (x == address) = rw (names, z) in
                elim (Bool-cases (contains x direct)) [
                  | inl q ↦
                      let other : (x == address) ≡ false = elim (Bool-cases (x == address)) [
                        | inr n ↦ n
                        | inl y ↦
                            absurd (let e = rw ((==_iff x address).0 y, d) at q in ground arith)
                      ] in
                      rw (owners, c, z, q) (ground (arith, rest, named, other))
                  | inr q ↦ rw (owners, c, z, q) (ground (arith, rest, named))
                ]
          ]
    ]

has_entry-++ :
    {E : Type 0}
    → (address : ℕ) (l r : List (SignatureForAddress E))
    → has_entry address (l ++ r) ≡ (has_entry address l || has_entry address r)
has_entry-++ address [] r = refl
has_entry-++ address (s ∷ l) r = let rest = has_entry-++ address l r in ground arith

module _ {E : Type 0} (encode : ℕ → ℕ → ℕ) (address_hash : ℕ → ℕ) (parse : ℕ → Option ℕ) where
  has_entry-new :
      (slot address : ℕ) (signature : List ℕ) (error : Option E) (memo : Option (List ℕ)) (i : ℕ)
      (keys : List ℕ)
      → has_entry address
          (map (λ a. new encode address_hash parse slot a signature error memo i) keys)
        ≡ contains address keys
  has_entry-new slot address signature error memo i [] = refl
  has_entry-new slot address signature error memo i (k ∷ keys) =
      ap (λ r. (k == address) || r) (has_entry-new slot address signature error memo i keys)

  has_entry-owner :
      (slot address : ℕ) (signature : List ℕ) (error : Option E) (memo : Option (List ℕ)) (i : ℕ)
      (l : List (ℕ × Bool))
      → has_entry address (
          map
            (λ p. new_token_owner encode address_hash parse slot p.0 signature error memo i p.1)
            l)
        ≡ given address l
  has_entry-owner slot address signature error memo i [] = refl
  has_entry-owner slot address signature error memo i ((a, c) ∷ l) =
      ap (λ r. (a == address) || r) (has_entry-owner slot address signature error memo i l)

  -- A transaction has an entry for exactly the addresses among its account keys and the owners,
  -- as far as they parse, of its token balances before and after.
  pub sfa_of-addressed :
      (slot : ℕ) (signature : List ℕ) (i : ℕ) (m : Meta E) (address : ℕ)
      → has_entry address (sfa_of encode address_hash parse slot signature i m) ≡ (
          contains address m.account_keys
          || owned parse address (m.pre_token_balances ++ m.post_token_balances))
  unfolding sfa_of
  sfa_of-addressed slot signature i m address =
      let balances = m.pre_token_balances ++ m.post_token_balances in
      let owner_changed =
        changed (amounts m.pre_token_balances []) (amounts m.post_token_balances []) balances in
      let direct =
        map (λ a. new encode address_hash parse slot a signature m.error m.memo i) m.account_keys in
      let found = owners parse m.account_keys owner_changed [] balances in
      let indirect =
        map (λ p. new_token_owner encode address_hash parse slot p.0 signature m.error m.memo i p.1)
          found in
      let both = has_entry-++ address direct indirect in
      let keys = has_entry-new slot address signature m.error m.memo i m.account_keys in
      let rest = has_entry-owner slot address signature m.error m.memo i found in
      elim (Bool-cases (contains address m.account_keys)) [
        | inl c ↦ both ∙ ground (arith, keys, rest, c)
        | inr c ↦
            let of_owner = owners-new parse m.account_keys owner_changed [] balances address c in
            both ∙ ground (arith, keys, rest, c, of_owner)
      ]
