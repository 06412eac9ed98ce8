-- ===== src/Audit/Record/Injective.antt =====
-- The canonical form of internal/audit/chain.go determines the record.
use mathlib.Core.List.{append_assoc}
use cupel.Base.{
  ℕ, ◌/◌, ◌^◌, ◌≡◌, ◌≢◌, refl, sym, ◌∙◌, List, [], ◌∷◌, ◌++◌, arith, String, All-append, codes,
  codes_injective, append_cancel_left,
}
use cupel.Audit.Decimal.{format_uint, format_uint-injective, format_uint_one_line}
use cupel.Audit.Escape.{
  newline, colon, semicolon, Free, escape, escape-injective, escape-Free, cut_first, cut_last,
}
use cupel.Audit.Record.{Record, Encoding, sort_keys, detail_text, canonical}

abbrev pub OneLine : String → Type 0
OneLine s = Free 10 (codes s)

-- What the standard library's formats are relied on for.
pub record IsFaithful (enc : Encoding) : Type 0 where
  pub rfc3339_injective : (s t : ℕ) → enc.rfc3339 s ≡ enc.rfc3339 t → s ≡ t
  pub rfc3339_one_line : (s : ℕ) → Free 10 (enc.rfc3339 s)
  pub sha256_one_line : (x : List ℕ) → OneLine (enc.sha256_hex x)

-- Two records say the same: only their hashes, and fractions of a second, may differ.
pub record SameContent (r s : Record) : Type 0 where
  pub seq : r.seq ≡ s.seq
  pub time : r.time / 10 ^ 9 ≡ s.time / 10 ^ 9
  pub type : r.type ≡ s.type
  pub subject : r.subject ≡ s.subject
  pub actor : r.actor ≡ s.actor
  pub prev_hash : r.prev_hash ≡ s.prev_hash
  pub detail : sort_keys r.detail ≡ sort_keys s.detail

detail_text-ne-nil : (k : List ℕ) (x : List ℕ) → k ++ b':' ∷ x ≢ []
detail_text-ne-nil [] x h = cc
detail_text-ne-nil (c ∷ k) x h = cc

detail_text-injective : (d e : List (String × String)) → detail_text d ≡ detail_text e → d ≡ e
unfolding detail_text
detail_text-injective [] [] h = refl
detail_text-injective [] ((j, w) ∷ e) h = absurd (detail_text-ne-nil (escape j) _ (sym h))
detail_text-injective ((k, v) ∷ d) [] h = absurd (detail_text-ne-nil (escape k) _ h)
detail_text-injective ((k, v) ∷ d) ((j, w) ∷ e) h =
    let key =
      cut_first b':' (escape k) (escape j) _ _ (escape-Free _ k (colon refl))
        (escape-Free _ j (colon refl)) h in
    let value =
      cut_first b';' (escape v) (escape w) _ _ (escape-Free _ v (semicolon refl))
        (escape-Free _ w (semicolon refl)) key.1 in
    cc (escape-injective k j key.0, escape-injective v w value.0, detail_text-injective d e value.1)

detail_text_one_line : (d : List (String × String)) → Free 10 (detail_text d)
unfolding detail_text
detail_text_one_line [] = tt
detail_text_one_line ((k, v) ∷ d) = All-append _ (escape k) _ (escape-Free 10 k (newline refl)) (
  omega arith,
  All-append _ (escape v) _ (escape-Free 10 v (newline refl)) (omega arith, detail_text_one_line d),
)

-- The lines of a canonical form, the last one first.
lines : (t s a p d : List ℕ) → List ℕ
lines t s a p d =
    t
    ++ 10
      ∷ (codes "subject="
          ++ (s
              ++ 10
                ∷ (codes "actor="
                    ++ (a
                        ++ 10
                          ∷ (codes "prev=" ++ (p ++ 10 ∷ (codes "detail=" ++ (d ++ 10 ∷ []))))))))

lines_last :
    (t s a p d : List ℕ)
    → lines t s a p d
      ≡ ((((t ++ 10 ∷ (codes "subject=" ++ s)) ++ 10 ∷ (codes "actor=" ++ a))
            ++ 10 ∷ (codes "prev=" ++ p))
          ++ 10 ∷ (codes "detail=" ++ d))
        ++ 10 ∷ []
unfolding lines
lines_last t s a p d = simp append_assoc

label_one_line : (label s : List ℕ) → Free 10 label → Free 10 s → Free 10 (label ++ s)
label_one_line label s = All-append _ label s

subject_label : Free 10 (codes "subject=")
subject_label = omega arith

actor_label : Free 10 (codes "actor=")
actor_label = omega arith

prev_label : Free 10 (codes "prev=")
prev_label = omega arith

detail_label : Free 10 (codes "detail=")
detail_label = omega arith

lines-cancel :
    (t s a p d t' s' a' p' d' : List ℕ)
    → Free 10 s
    → Free 10 s'
    → Free 10 a
    → Free 10 a'
    → Free 10 p
    → Free 10 p'
    → Free 10 d
    → Free 10 d'
    → lines t s a p d ≡ lines t' s' a' p' d'
    → (t ≡ t') × (s ≡ s') × (a ≡ a') × (p ≡ p') × (d ≡ d')
lines-cancel t s a p d t' s' a' p' d' fs fs' fa fa' fp fp' fd fd' h =
    let end =
      cut_last 10 _ _ [] [] tt tt (sym (lines_last t s a p d) ∙ h ∙ lines_last t' s' a' p' d') in
    let detail =
      cut_last 10 _ _ _ _ (label_one_line (codes "detail=") d detail_label fd)
        (label_one_line (codes "detail=") d' detail_label fd') end.0 in
    let prev =
      cut_last 10 _ _ _ _ (label_one_line (codes "prev=") p prev_label fp)
        (label_one_line (codes "prev=") p' prev_label fp') detail.0 in
    let actor =
      cut_last 10 _ _ _ _ (label_one_line (codes "actor=") a actor_label fa)
        (label_one_line (codes "actor=") a' actor_label fa') prev.0 in
    let subject =
      cut_last 10 _ _ _ _ (label_one_line (codes "subject=") s subject_label fs)
        (label_one_line (codes "subject=") s' subject_label fs') actor.0 in
    (
      subject.0,
      append_cancel_left (codes "subject=") s s' subject.1,
      append_cancel_left (codes "actor=") a a' actor.1,
      append_cancel_left (codes "prev=") p p' prev.1,
      append_cancel_left (codes "detail=") d d' detail.1,
    )

-- The lines of a record up to its type, which may hold line ends.
front : Encoding → Record → List ℕ
front enc r =
    format_uint r.seq
    ++ 10
      ∷ (codes "time=" ++ (enc.rfc3339 (r.time / 10 ^ 9) ++ 10 ∷ (codes "type=" ++ codes r.type)))

canonical-lines :
    (enc : Encoding) (r : Record)
    → canonical enc r
      ≡ codes "seq="
        ++ lines
            (front enc r)
            (escape r.subject)
            (escape r.actor)
            (codes r.prev_hash)
            (detail_text (sort_keys r.detail))
unfolding canonical lines front
canonical-lines enc r = simp append_assoc

module _ (enc : Encoding) (faithful : IsFaithful enc) (r s : Record) where
  front-cancel :
      front enc r ≡ front enc s
      → (r.seq ≡ s.seq) × (r.time / 10 ^ 9 ≡ s.time / 10 ^ 9) × (r.type ≡ s.type)
  unfolding front
  front-cancel h =
      let number =
        cut_first 10 (format_uint r.seq) (format_uint s.seq) _ _ (format_uint_one_line r.seq)
          (format_uint_one_line s.seq) h in
      let clock =
        cut_first 10 _ _ _ _ (faithful.rfc3339_one_line (r.time / 10 ^ 9))
          (faithful.rfc3339_one_line (s.time / 10 ^ 9))
          (append_cancel_left (codes "time=") _ _ number.1) in
      (
        format_uint-injective _ _ number.0,
        faithful.rfc3339_injective _ _ clock.0,
        codes_injective _ _ (append_cancel_left (codes "type=") _ _ clock.1),
      )

  -- Records whose predecessor hashes are single lines have the same canonical form only if they
  -- have the same sequence number, second, type, subject, actor, predecessor and detail.
  -- The time format tells seconds apart, and it and the hashes are single lines.
  pub canonical-SameContent :
      OneLine r.prev_hash
      → OneLine s.prev_hash
      → canonical enc r ≡ canonical enc s
      → SameContent r s
  canonical-SameContent pr ps h =
      let all =
        lines-cancel _ _ _ _ _ _ _ _ _ _ (escape-Free 10 r.subject (newline refl))
          (escape-Free 10 s.subject (newline refl)) (escape-Free 10 r.actor (newline refl))
          (escape-Free 10 s.actor (newline refl)) pr ps (detail_text_one_line (sort_keys r.detail))
          (detail_text_one_line (sort_keys s.detail))
          (append_cancel_left (codes "seq=") _ _
            (sym (canonical-lines enc r) ∙ h ∙ canonical-lines enc s)) in
      let head = front-cancel all.0 in
      record {
        seq = head.0;
        time = head.1;
        type = head.2;
        subject = escape-injective _ _ all.1;
        actor = escape-injective _ _ all.2;
        prev_hash = codes_injective _ _ all.3;
        detail = detail_text-injective _ _ all.4;
      }
