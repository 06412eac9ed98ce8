-- ===== src/Audit/Chain/Tests.antt =====
-- Concrete chains of internal/audit/chain.go: the theorems applied, and tests by evaluation.
use cupel.Base.{
  ℕ, ◌+◌, ◌%◌, ◌≡◌, ◌↔◌, ◌⊎◌, refl, true, false, none, some, List, [], ◌∷◌, arith, String, ◌==◌,
  if◌then◌else◌, codes, Bool-cases, inl, inr,
}
use cupel.Audit.Decimal.{format_uint, format_uint-injective, format_uint_one_line}
use cupel.Audit.Record.{Record, Encoding, genesis_hash, canonical, compute_hash, seal}
use cupel.Audit.Record.Injective.{OneLine, IsFaithful, SameContent, canonical-SameContent}
use cupel.Audit.Chain.{head_hash, verify_from, verify, head}
use cupel.Audit.Chain.Verdict.{Meets, valid-iff-Linked, total}
use cupel.Audit.Chain.Links.{Linked}
use cupel.Audit.Chain.Tamper.{Collision, SameChain, tamper_evident}
use cupel.Audit.Chain.Growth.{record_all, checkpoint_pins}

sum : List ℕ → ℕ
sum [] = 0
sum (c ∷ cs) = c + sum cs

digest : List ℕ → String
digest x = if sum x % 2 == 0 then "even" else "odd"

digest-OneLine : (x : List ℕ) → OneLine (digest x)
unfolding digest
digest-OneLine x = elim (Bool-cases (sum x % 2 == 0)) [
  | inl e ↦ rw e (omega arith)
  | inr e ↦ rw e (omega arith)
]

-- A checksum for the hash, and Unix seconds for the time format.
abbrev toy : Encoding
toy = record { sha256_hex = digest; rfc3339 = format_uint }

toy-IsFaithful : IsFaithful toy
toy-IsFaithful = record {
  rfc3339_injective = format_uint-injective;
  rfc3339_one_line = format_uint_one_line;
  sha256_one_line = digest-OneLine;
}

abbrev blocked : Record
blocked = record {
  seq = 0;
  time = 1500000000;
  type = "DeploymentBlocked";
  subject = "fraud/3";
  actor = "system";
  detail = ("reason", "quarantined; malware: yes") ∷ ("namespace", "ml") ∷ [];
  prev_hash = "";
  hash = "";
}

abbrev accepted : Record
accepted = record blocked { type = "RiskAccepted"; actor = "alice"; time = 2500000000; detail = [] }

abbrev chain : List Record
chain = record_all toy [] (blocked ∷ accepted ∷ [])

canonical_test :
    canonical toy (seal toy blocked none)
    ≡ codes
        "seq=1\ntime=1\ntype=DeploymentBlocked\nsubject=fraud/3\nactor=system\nprev=0000000000000000000000000000000000000000000000000000000000000000\ndetail=namespace:ml;reason:quarantined\\s malware\\c yes;\n"
unfolding canonical seal digest sum compute_hash
canonical_test = refl

chain_valid : (verify toy chain none).valid ≡ true
unfolding verify record_all compute_hash canonical seal digest sum
chain_valid = refl

anchored_valid : (verify_from toy chain none none).valid ≡ true
unfolding verify_from record_all compute_hash canonical seal digest sum
anchored_valid = refl

pinned_valid : (verify toy chain (some (head chain 0))).valid ≡ true
unfolding verify head record_all compute_hash canonical seal digest sum
pinned_valid = refl

-- The second record alone is refused.
tail_refused : (verify toy (seal toy accepted (some blocked) ∷ []) none).valid ≡ false
unfolding verify compute_hash canonical seal digest sum
tail_refused = refl

canonical-SameContent_example : SameContent (seal toy blocked none) (seal toy blocked none)
unfolding seal
canonical-SameContent_example =
    canonical-SameContent toy toy-IsFaithful (seal toy blocked none) (seal toy blocked none)
      (omega arith) (omega arith) refl

tamper_evident_example : (SameChain chain chain × (genesis_hash ≡ genesis_hash)) ⊎ Collision toy
tamper_evident_example =
    tamper_evident toy toy-IsFaithful chain chain none none none none (omega arith) (omega arith)
      anchored_valid anchored_valid refl refl

-- A log that was sealed anew and is longer than its checkpoint passes, whatever head that has.
rewritten_log_passes :
    (verify toy chain
      (some (record (head (seal toy blocked none ∷ []) 0) { head = "another" }))).valid
    ≡ true
unfolding verify head record_all compute_hash canonical seal digest sum
rewritten_log_passes = refl

checkpoint_pins_example : SameChain chain chain ⊎ Collision toy
unfolding record_all verify
checkpoint_pins_example =
    checkpoint_pins toy toy-IsFaithful chain chain 0 (omega arith) anchored_valid pinned_valid
      (omega arith)

valid-iff-Linked_example : ((verify_from toy chain none none).valid ≡ true) ↔ (
    Linked toy 0 genesis_hash chain × Meets none (total none chain) (head_hash genesis_hash chain))
valid-iff-Linked_example = valid-iff-Linked toy chain none none
