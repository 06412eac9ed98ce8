-- ===== src/Audit/Chain/Tamper.antt =====
-- A verified chain of internal/audit/chain.go is fixed by its length and its last hash.
use cupel.Base.{
  ℕ, suc, ◌≡◌, ◌≢◌, ◌⊎◌, inl, inr, sym, ◌∙◌, true, Option, List, [], ◌∷◌, arith, String, length,
  codes_discrete,
}
use cupel.Audit.Record.{Record, Encoding, canonical, compute_hash}
use cupel.Audit.Record.Injective.{OneLine, IsFaithful, SameContent, canonical-SameContent}
use cupel.Audit.Chain.{Anchor, Checkpoint, offset_of, start_of, head_hash, verify_from}
use cupel.Audit.Chain.Links.{Linked}
use cupel.Audit.Chain.Verdict.{valid-iff-Linked}

-- Two different texts with one hash.
abbrev pub Collision : Encoding → Type 0
Collision enc = (x : List ℕ) × (y : List ℕ) × (x ≢ y) × (enc.sha256_hex x ≡ enc.sha256_hex y)

-- Record by record, two chains have the same content and the same hashes.
abbrev pub SameChain : List Record → List Record → Type 0
SameChain [] [] = Unit {0}
SameChain [] (s ∷ ss) = ⊥
SameChain (r ∷ rs) [] = ⊥
SameChain (r ∷ rs) (s ∷ ss) = SameContent r s × (r.hash ≡ s.hash) × SameChain rs ss

module _ (enc : Encoding) (faithful : IsFaithful enc) where
  same_hash :
      (r s : Record)
      → OneLine r.prev_hash
      → OneLine s.prev_hash
      → compute_hash enc r ≡ compute_hash enc s
      → SameContent r s ⊎ Collision enc
  unfolding compute_hash
  same_hash r s pr ps h = elim (codes_discrete (canonical enc r) (canonical enc s)) [
    | yes e ↦ inl (canonical-SameContent enc faithful r s pr ps e)
    | no n ↦ inr (canonical enc r, canonical enc s, n, h)
  ]

  hash-OneLine : (r : Record) → compute_hash enc r ≡ r.hash → OneLine r.hash
  unfolding compute_hash
  hash-OneLine r h = rw (← h) (faithful.sha256_one_line (canonical enc r))

  -- From equal last hashes back to the first record.
  Linked-SameChain :
      (j k : ℕ) (p q : String) (rs ss : List Record)
      → OneLine p
      → OneLine q
      → Linked enc j p rs
      → Linked enc k q ss
      → length rs ≡ length ss
      → head_hash p rs ≡ head_hash q ss
      → (SameChain rs ss × (p ≡ q)) ⊎ Collision enc
  Linked-SameChain j k p q [] [] op oq lr ls n h = inl (tt, h)
  Linked-SameChain j k p q [] (s ∷ ss) op oq lr ls n h = absurd (omega arith)
  Linked-SameChain j k p q (r ∷ rs) [] op oq lr ls n h = absurd (omega arith)
  Linked-SameChain j k p q (r ∷ rs) (s ∷ ss) op oq lr ls n h =
      elim (Linked-SameChain (suc j) (suc k) r.hash s.hash rs ss (hash-OneLine r lr.2)
        (hash-OneLine s ls.2) lr.3 ls.3 (omega arith) h) [
          | inr c ↦ inr c
          | inl (later, hashes) ↦
              elim (same_hash r s (rw lr.1 op) (rw ls.1 oq) (lr.2 ∙ hashes ∙ sym ls.2)) [
                | inr c ↦ inr c
                | inl same ↦ inl ((same, hashes, later), sym lr.1 ∙ same.prev_hash ∙ ls.1)
              ]
        ]

  -- Two valid chains with as many records and the same last hash have the same content, record by
  -- record, and start from the same hash; or they exhibit a collision of the hash function. The time
  -- format tells seconds apart, and it, the hashes and the hashes that the chains start from are
  -- single lines.
  pub tamper_evident :
      (rs ss : List Record) (a b : Option Anchor) (cp dp : Option Checkpoint)
      → OneLine (start_of a)
      → OneLine (start_of b)
      → (verify_from enc rs a cp).valid ≡ true
      → (verify_from enc ss b dp).valid ≡ true
      → length rs ≡ length ss
      → head_hash (start_of a) rs ≡ head_hash (start_of b) ss
      → (SameChain rs ss × (start_of a ≡ start_of b)) ⊎ Collision enc
  tamper_evident rs ss a b cp dp oa ob vr vs n h =
      Linked-SameChain (offset_of a) (offset_of b) (start_of a) (start_of b) rs ss oa ob
        ((valid-iff-Linked enc rs a cp).0 vr).0 ((valid-iff-Linked enc ss b dp).0 vs).0 n h
