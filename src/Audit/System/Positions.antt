-- ===== src/Audit/System/Positions.antt =====
-- Records by their numbers, in lists of consecutive records.
use cupel.Base.{
  ℕ, suc, ◌+◌, ◌≤◌, ◌<◌, ◌^◌, ◌≡◌, ◌⊎◌, inl, inr, refl, sym, ap, subst, ◌∙◌, true, false, not, none,
  some, List, [], ◌∷◌, ◌++◌, append_assoc, arith, String, length, length-append, select, ltb, leb,
  ◌==◌, Bool-cases,
}
use cupel.Audit.Record.{Record, Encoding}
use cupel.Audit.Chain.Links.{Linked}
use cupel.Audit.Chain.Growth.{last?}
use cupel.Audit.Store.{find_record, insert_by_seq, load}
use cupel.Audit.Archive.{covered, numbers, delete_record}

-- The records are numbered on from `k`.
abbrev pub Ascends : ℕ → List Record → Type 0
Ascends k [] = Unit {0}
Ascends k (r ∷ rs) = (r.seq ≡ suc k) × Ascends (suc k) rs

pub Linked-Ascends :
    (enc : Encoding) (k : ℕ) (p : String) (rs : List Record)
    → k + length rs < 2 ^ 64
    → Linked enc k p rs
    → Ascends k rs
Linked-Ascends enc k p [] fits l = tt
Linked-Ascends enc k p (r ∷ rs) fits l =
    (omega (arith, l.0), Linked-Ascends enc (suc k) r.hash rs (omega arith) l.3)

-- The record with number `m`, at its place behind `k` others.
pub record At (k : ℕ) (rs : List Record) (m : ℕ) (r : Record) : Type 0 where
  pub before : List Record
  pub later : List Record
  pub split : rs ≡ before ++ r ∷ later
  pub place : m ≡ suc (k + length before)
  pub number : r.seq ≡ m

pub At-append :
    {k m : ℕ} {rs : List Record} {r : Record} (more : List Record)
    → At k rs m r
    → At k (rs ++ more) m r
At-append more a = record {
  before = a.before;
  later = a.later ++ more;
  split = ap (λ (xs : List Record). xs ++ more) a.split ∙ append_assoc a.before _ more;
  place = a.place;
  number = a.number;
}

pub At-front :
    {m : ℕ} {rs : List Record} {r : Record} (front : List Record)
    → At (length front) rs m r
    → At 0 (front ++ rs) m r
At-front front a = record {
  before = front ++ a.before;
  later = a.later;
  split = ap (λ (xs : List Record). front ++ xs) a.split ∙ sym (append_assoc front a.before _);
  place = omega (arith, a.place, length-append front a.before);
  number = a.number;
}

At-cons :
    {k m : ℕ} {s : Record} {rs : List Record} {r : Record} → At (suc k) rs m r → At k (s ∷ rs) m r
At-cons {s} a = record {
  before = s ∷ a.before;
  later = a.later;
  split = ap (λ (xs : List Record). s ∷ xs) a.split;
  place = omega (arith, a.place);
  number = a.number;
}

pub At-le : {k m : ℕ} {rs : List Record} {r : Record} → At k rs m r → (k < m) × (m ≤ k + length rs)
At-le {k} {m} {rs} {r} a =
    let whole = ap length a.split in
    let parts = length-append a.before (r ∷ a.later) in
    (omega (arith, a.place), omega (arith, whole, parts, a.place))

pub last?-snoc : (xs : List Record) (r : Record) → last? (xs ++ r ∷ []) ≡ some r
unfolding last?
last?-snoc [] r = refl
last?-snoc (x ∷ []) r = refl
last?-snoc (x ∷ y ∷ xs) r = last?-snoc (y ∷ xs) r

pub length-nil : (xs : List Record) → length xs ≡ 0 → xs ≡ []
length-nil [] h = refl
length-nil (x ∷ xs) h = absurd (omega arith)

-- The record at the last place is the last one.
pub At-last? :
    {k m : ℕ} {rs : List Record} {r : Record} → At k rs m r → k + length rs ≤ m → last? rs ≡ some r
At-last? {k} {m} {rs} {r} a h =
    let whole = ap length a.split in
    let parts = length-append a.before (r ∷ a.later) in
    let none_later : a.later ≡ [] = length-nil a.later (omega (arith, whole, parts, a.place)) in
    ap last? a.split ∙ rw none_later (last?-snoc a.before r)

pub find_record-none :
    (n k : ℕ) (rs : List Record)
    → Ascends k rs
    → find_record n rs ≡ none
    → (n ≤ k) ⊎ (k + length rs < n)
unfolding find_record
find_record-none n k [] a h = ground arith
find_record-none n k (r ∷ rs) a h = elim (Bool-cases (r.seq == n)) [
  | inl same ↦ cc (rw same at h)
  | inr other ↦ ground (arith, find_record-none n (suc k) rs a.1 (rw other at h))
]

At-head : (k : ℕ) (s : Record) (rs : List Record) → s.seq ≡ suc k → At k (s ∷ rs) s.seq s
At-head k s rs e = record {
  before = [];
  later = rs;
  split = refl;
  place = omega (arith, e);
  number = refl;
}

pub find_record-At :
    (n k : ℕ) (rs : List Record) (r : Record)
    → Ascends k rs
    → find_record n rs ≡ some r
    → At k rs n r
unfolding find_record
find_record-At n k [] r a h = cc
find_record-At n k (s ∷ rs) r a h = elim (Bool-cases (s.seq == n)) [
  | inl same ↦
      let number : s.seq ≡ n = ground arith in
      subst (λ (x : Record). At k (s ∷ rs) n x) (cc (rw same at h))
        (subst (λ (m : ℕ). At k (s ∷ rs) m s) number (At-head k s rs a.0))
  | inr other ↦ At-cons (find_record-At n (suc k) rs r a.1 (rw other at h))
]

pub last?-At :
    (k : ℕ) (rs : List Record) (r : Record) → Ascends k rs → last? rs ≡ some r → At k rs r.seq r
unfolding last?
last?-At k [] r a h = cc
last?-At k (s ∷ []) r a h = subst (λ (x : Record). At k (s ∷ []) x.seq x) (cc) (At-head k s [] a.0)
last?-At k (s ∷ t ∷ rs) r a h = At-cons (last?-At (suc k) (t ∷ rs) r a.1 h)

pub last?-none : (rs : List Record) → last? rs ≡ none → rs ≡ []
unfolding last?
last?-none [] h = refl
last?-none (r ∷ []) h = cc
last?-none (r ∷ s ∷ rs) h = cc (last?-none (s ∷ rs) h)

insert-first :
    (k : ℕ) (r : Record) (rs : List Record)
    → r.seq ≡ suc k
    → Ascends (suc k) rs
    → insert_by_seq r rs ≡ r ∷ rs
unfolding insert_by_seq
insert-first k r [] e a = refl
insert-first k r (s ∷ rs) e a = ground (arith, a.0)

-- Consecutive records are loaded as they are stored.
pub load-Ascends : (k : ℕ) (rs : List Record) → Ascends k rs → load rs ≡ rs
unfolding load
load-Ascends k [] a = refl
load-Ascends k (r ∷ rs) a = rw (load-Ascends (suc k) rs a.1) (insert-first k r rs a.0 a.1)

select-later :
    (n k : ℕ) (rs : List Record) → n ≤ k → Ascends k rs → select (λ r. not (r.seq == n)) rs ≡ rs
select-later n k [] h a = refl
select-later n k (r ∷ rs) h a =
    let other : (r.seq == n) ≡ false = ground (arith, a.0) in
    rw other (ap (λ (xs : List Record). r ∷ xs) (select-later n (suc k) rs (omega arith) a.1))

pub delete_record-first :
    (k : ℕ) (r : Record) (rs : List Record)
    → Ascends k (r ∷ rs)
    → delete_record (suc k) (r ∷ rs) ≡ rs
unfolding delete_record
delete_record-first k r rs a =
    let first : (r.seq == suc k) ≡ true = ground (arith, a.0) in
    rw first (select-later (suc k) (suc k) rs (omega arith) a.1)

none_covered : (n k : ℕ) (rs : List Record) → n ≤ k → Ascends k rs → covered n rs ≡ []
unfolding covered
none_covered n k [] h a = refl
none_covered n k (r ∷ rs) h a =
    let past : leb r.seq n ≡ false = ground (arith, a.0) in
    rw past (none_covered n (suc k) rs (omega arith) a.1)

-- The records up to the boundary are numbered on from the first.
pub covered-append :
    (n k : ℕ) (xs ys : List Record)
    → n ≡ k + length xs
    → Ascends k (xs ++ ys)
    → covered n (xs ++ ys) ≡ numbers (suc k) (length xs)
unfolding covered numbers
covered-append n k [] ys e a = none_covered n k ys (omega arith) a
covered-append n k (x ∷ xs) ys e a =
    let here : leb x.seq n ≡ true = ground (arith, a.0) in
    rw (here, covered-append n (suc k) xs ys (omega arith) a.1, a.0) refl

all_past : (n k : ℕ) (rs : List Record) → n ≤ k → Ascends k rs → select (λ r. ltb n r.seq) rs ≡ rs
all_past n k [] h a = refl
all_past n k (r ∷ rs) h a =
    let past : ltb n r.seq ≡ true = ground (arith, a.0) in
    rw past (ap (λ (xs : List Record). r ∷ xs) (all_past n (suc k) rs (omega arith) a.1))

-- The records past the boundary.
pub select-past :
    (n k : ℕ) (xs ys : List Record)
    → n ≡ k + length xs
    → Ascends k (xs ++ ys)
    → select (λ r. ltb n r.seq) (xs ++ ys) ≡ ys
select-past n k [] ys e a = all_past n k ys (omega arith) a
select-past n k (x ∷ xs) ys e a =
    let here : ltb n x.seq ≡ false = ground (arith, a.0) in
    rw here (select-past n (suc k) xs ys (omega arith) a.1)
