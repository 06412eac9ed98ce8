-- ===== src/Audit/Chain/Growth.antt =====
-- Chains of internal/audit/chain.go that grow by `Seal`, and the checkpoints that `Head` takes.
use cupel.Base.{
  ℕ, suc, ◌+◌, ◌≤◌, ◌<◌, ◌^◌, ◌≡◌, ◌⊎◌, inl, inr, refl, sym, true, Option, none, some, List, [],
  ◌∷◌, ◌++◌, arith, String, length,
}
use cupel.Audit.Record.{Record, Encoding, u64, genesis_hash, compute_hash, canonical, seal}
use cupel.Audit.Record.Injective.{IsFaithful}
use cupel.Audit.Chain.{head_hash, verify, head}
use cupel.Audit.Chain.Links.{Linked}
use cupel.Audit.Chain.Verdict.{valid-iff-Linked}
use cupel.Audit.Chain.Segments.{Linked-append}
use cupel.Audit.Chain.Tamper.{Collision, SameChain, tamper_evident}

unfoldable pub last? : List Record → Option Record
last? [] = none
last? (r ∷ []) = some r
last? (r ∷ s ∷ rs) = last? (s ∷ rs)

-- Events sealed one after the other onto the end of a chain.
unfoldable pub record_all : Encoding → List Record → List Record → List Record
unfolding last?
record_all enc rs [] = rs
record_all enc rs (e ∷ es) = record_all enc (rs ++ seal enc e (last? rs) ∷ []) es

compute_hash-seal :
    (enc : Encoding) (e : Record) (prev : Option Record)
    → compute_hash enc (seal enc e prev) ≡ (seal enc e prev).hash
unfolding seal compute_hash canonical
compute_hash-seal enc e none = refl
compute_hash-seal enc e (some p) = refl

-- What `Seal` writes after the last record of a chain.
seal-last :
    (enc : Encoding) (e : Record) (k : ℕ) (p : String) (r : Record) (rs : List Record)
    → Linked enc k p (r ∷ rs)
    → ((seal enc e (last? (r ∷ rs))).seq ≡ u64 (suc (k + length (r ∷ rs))))
      × ((seal enc e (last? (r ∷ rs))).prev_hash ≡ head_hash p (r ∷ rs))
unfolding seal last?
seal-last enc e k p r [] l = (omega arith, refl)
seal-last enc e k p r (s ∷ rs) l =
    let later = seal-last enc e (suc k) r.hash s rs l.3 in (omega arith, later.1)

pub Linked-seal :
    (enc : Encoding) (e : Record) (rs : List Record)
    → Linked enc 0 genesis_hash rs
    → Linked enc 0 genesis_hash (rs ++ seal enc e (last? rs) ∷ [])
unfolding last?
Linked-seal enc e [] l =
    (unfold seal in omega arith, unfold seal in refl, compute_hash-seal enc e none, tt)
Linked-seal enc e (r ∷ rs) l =
    let next = seal-last enc e 0 genesis_hash r rs l in
    (Linked-append enc 0 (length (r ∷ rs)) genesis_hash (r ∷ rs) _ (omega arith)).1
      (l, (rw next.0 (omega arith), next.1, compute_hash-seal enc e (last? (r ∷ rs)), tt))

Linked-record_all :
    (enc : Encoding) (rs es : List Record)
    → Linked enc 0 genesis_hash rs
    → Linked enc 0 genesis_hash (record_all enc rs es)
unfolding record_all
Linked-record_all enc rs [] l = l
Linked-record_all enc rs (e ∷ es) l =
    Linked-record_all enc (rs ++ seal enc e (last? rs) ∷ []) es (Linked-seal enc e rs l)

-- Whatever events are sealed in turn onto an empty chain, the chain verifies against the
-- checkpoint that `Head` takes of it.
pub verify-record_all :
    (enc : Encoding) (es : List Record) (now : ℕ)
    → (verify enc (record_all enc [] es) (some (head (record_all enc [] es) now))).valid ≡ true
unfolding verify head
verify-record_all enc es now =
    (valid-iff-Linked enc (record_all enc [] es) none (some (head (record_all enc [] es) now))).1
      (Linked-record_all enc [] es tt, (omega arith, λ _. refl))

-- A chain that verifies against the checkpoint of a valid chain, and is not longer than it, has
-- its content record by record; or it exhibits a collision of the hash function. So a chain that
-- was cut short or rewritten in place is refused. The length of the first chain fits 64 bits, the
-- time format tells seconds apart, and it and the hashes are single lines.
pub checkpoint_pins :
    (enc : Encoding) (faithful : IsFaithful enc) (rs ss : List Record) (now : ℕ)
    → length rs < 2 ^ 64
    → (verify enc rs none).valid ≡ true
    → (verify enc ss (some (head rs now))).valid ≡ true
    → length ss ≤ length rs
    → SameChain rs ss ⊎ Collision enc
unfolding verify head
checkpoint_pins enc faithful rs ss now fits vr vs shorter =
    let met = ((valid-iff-Linked enc ss none (some (head rs now))).0 vs).1 in
    let same : length rs ≡ length ss = omega arith in
    elim (tamper_evident enc faithful rs ss none none none (some (head rs now)) (omega arith)
      (omega arith) vr vs same (sym (met.1 (omega arith)))) [ inl h ↦ inl h.0 | inr c ↦ inr c ]
