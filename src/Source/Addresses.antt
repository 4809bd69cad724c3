-- ===== src/Source/Addresses.antt =====
-- src/source/block.rs: what `BlockWithBinary::new` keeps for an address.
use alpamayo.Prelude.{
  ℕ, ◌≡◌, sym, ap, ◌∙◌, Option, none, some, Bool, List, [], ◌∷◌, ◌++◌, reverse, if◌then◌else◌, ◌==◌,
  Bool-cases, Option-cases, inl, inr, ==_iff,
}
use mathlib.Core.List.{append-nil, append_assoc}
use alpamayo.Prelude.TreeMap.{get, get-insert}
use alpamayo.Codec.Sfa.{SignatureStatus}
use alpamayo.Store.Db.{SignaturesForAddress}
use alpamayo.Source.Transaction
use alpamayo.Source.Transaction.{SignatureForAddress, TransactionWithBinary, merge, status}
use alpamayo.Source.Encode.{Prost}
use alpamayo.Source.Block
use alpamayo.Source.Block.{Parts, NewBlock, add_sfa, add_all, collect_sfa, retained}
use alpamayo.Source.Offsets.{Located, encode_with_tx_offsets-Located}

module _ {E : Type 0} where
  -- The entries of an address, in order, and those of a list of transactions.
  abbrev pub entries : ℕ → List (SignatureForAddress E) → List (SignatureStatus E)
  entries address [] = []
  entries address (s ∷ rest) =
      if s.address == address then status s ∷ entries address rest else entries address rest

  abbrev pub all_entries : ℕ → List (TransactionWithBinary E) → List (SignatureStatus E)
  all_entries address [] = []
  all_entries address (tx ∷ txs) = entries address tx.sfa ++ all_entries address txs

  abbrev pub signatures_of : Option (SignaturesForAddress E) → List (SignatureStatus E)
  signatures_of none = []
  signatures_of (some all) = all.signatures

  add_sfa-entries :
      (s : SignatureForAddress E) (address : ℕ) (m : List (ℕ × SignaturesForAddress E))
      → signatures_of (get address (add_sfa s m))
        ≡ signatures_of (get address m) ++ entries address (s ∷ [])
  unfolding add_sfa
  add_sfa-entries s address m = elim (Bool-cases (s.address == address)) [
    | inl e ↦
        let same = (==_iff s.address address).0 e in
        elim (Option-cases (get s.address m)) [
          | inl none_yet ↦
              let before : get address m ≡ none = ap (λ a. get a m) (sym same) ∙ none_yet in
              rw (add_sfa, none_yet, get-insert s.address address (Transaction.new s) m, e, before)
          | inr (all, found) ↦
              let before : get address m ≡ some all = ap (λ a. get a m) (sym same) ∙ found in
              rw (add_sfa, found, get-insert s.address address (merge s all) m, e, before)
        ]
    | inr e ↦ elim (Option-cases (get s.address m)) [
      | inl none_yet ↦
          rw (add_sfa, none_yet, get-insert s.address address (Transaction.new s) m, e)
            (sym (append-nil (signatures_of (get address m))))
      | inr (all, found) ↦
          rw (add_sfa, found, get-insert s.address address (merge s all) m, e)
            (sym (append-nil (signatures_of (get address m))))
    ]
  ]

  entries_cons :
      (address : ℕ) (s : SignatureForAddress E) (rest : List (SignatureForAddress E))
      → entries address (s ∷ rest) ≡ entries address (s ∷ []) ++ entries address rest
  entries_cons address s rest = elim (Bool-cases (s.address == address)) [
    | inl e ↦ rw e
    | inr e ↦ rw e
  ]

  add_all-entries :
      (l : List (SignatureForAddress E)) (address : ℕ) (m : List (ℕ × SignaturesForAddress E))
      → signatures_of (get address (add_all l m))
        ≡ signatures_of (get address m) ++ entries address l
  unfolding add_all
  add_all-entries [] address m = sym (append-nil (signatures_of (get address m)))
  add_all-entries (s ∷ rest) address m =
      add_all-entries rest address (add_sfa s m)
      ∙ ap (λ l. l ++ entries address rest) (add_sfa-entries s address m)
      ∙ append_assoc (signatures_of (get address m)) (entries address (s ∷ []))
          (entries address rest)
      ∙ ap (λ l. signatures_of (get address m) ++ l) (sym (entries_cons address s rest))

  collect_sfa-entries :
      (txs : List (TransactionWithBinary E)) (address : ℕ) (m : List (ℕ × SignaturesForAddress E))
      → signatures_of (get address (collect_sfa txs m))
        ≡ signatures_of (get address m) ++ all_entries address txs
  unfolding collect_sfa
  collect_sfa-entries [] address m = sym (append-nil (signatures_of (get address m)))
  collect_sfa-entries (tx ∷ txs) address m =
      collect_sfa-entries txs address (add_all tx.sfa m)
      ∙ ap (λ l. l ++ all_entries address txs) (add_all-entries tx.sfa address m)
      ∙ append_assoc (signatures_of (get address m)) (entries address tx.sfa)
          (all_entries address txs)

  -- In a new block, with votes left out unless they are indexed: every kept transaction stands at its
  -- offset in the bytes of the block, and the signatures of an address are those of its entries, from the
  -- last transaction to the first and in order within each.
  pub new-Located :
      (p : Prost) (index_vote : Bool) (b : Parts E)
      → let block = Block.new p index_vote b in
        let txs = retained index_vote b.transactions in
        Located block.protobuf txs block.txs_offset
        × ((address : ℕ)
            → signatures_of (get address block.sfa) ≡ all_entries address (reverse txs))
  unfolding Block.new get
  new-Located p index_vote b =
      let txs = retained index_vote b.transactions in
      (
        encode_with_tx_offsets-Located p (record {
          previous_blockhash = b.previous_blockhash;
          blockhash = b.blockhash;
          parent_slot = b.parent_slot;
          transactions = txs;
          rewards = b.rewards;
          block_time = b.block_time;
          block_height = b.block_height;
          num_partitions = b.num_partitions;
        }),
        λ address. collect_sfa-entries (reverse txs) address [],
      )
