-- ===== src/Audit/System/Acknowledged.antt =====
-- A record that `Append` of internal/audit/recorder.go has returned stays in the log.
use cupel.Base.{ℕ, ◌≡◌, sym, ap, subst, ◌∙◌, List, [], ◌∷◌, ◌++◌, append_assoc, append-nil, length}
use cupel.Audit.Record.{Record, Encoding, seal}
use cupel.Audit.Chain.Growth.{last?}
use cupel.Audit.Recorder.{appended}
use cupel.Audit.Archive.{Codec, Archiver}
use cupel.Audit.System.{System, Step, Reach, next}
use cupel.Audit.System.Positions.{At, At-append}
use cupel.Audit.System.Invariant.{WriterOk}
use cupel.Audit.System.Invariant.Segments.{RoundTrips}
use cupel.Audit.System.Written.{stutters, appends}
use cupel.Audit.System.Reachable.{logged, Reach-Inv, logged-live, Step-Grows}

module _ (enc : Encoding) (a : Archiver) (codec : Codec) (trips : RoundTrips codec) where
  -- Any number of steps.
  pub data Steps (s : System) : System → Type 0 where
    none_yet : Steps s s
    and_then : {t u : System} → Steps s t → Step enc a codec t u → Steps s u

  Reach-Steps : (s t : System) → Reach enc a codec s → Steps s t → Reach enc a codec t
  Reach-Steps s _ r none_yet = r
  Reach-Steps s u r (and_then st step) = next (Reach-Steps s _ r st) step

  logged-Steps :
      (s t : System)
      → Reach enc a codec s
      → Steps s t
      → (more : List Record) × (logged t ≡ logged s ++ more)
  logged-Steps s _ r none_yet = ([], sym (append-nil (logged s)))
  logged-Steps s u r (and_then {t} st step) =
      let (more, e) = logged-Steps s t r st in
      elim (Step-Grows enc a codec trips t u (Reach-Steps s t r st) step) [
        | stutters same ↦ (more, same ∙ e)
        | appends i k event prev w grown ↦
            let r' = seal enc event (last? (logged t)) in
            (
              more ++ r' ∷ [],
              grown
                  ∙ (ap (λ (xs : List Record). xs ++ r' ∷ []) e
                      ∙ append_assoc (logged s) more (r' ∷ [])),
            )
      ]

  -- Where a call of `Append` has returned a record, that record stands in the log at the place of its
  -- number, in that state and in every state that follows, provided that a record is deleted only
  -- while no writer holds an older head, which the code does not enforce. An encoded segment decodes
  -- to itself, and fewer than 2 ^ 64 records are appended.
  pub appended-At :
      (s t : System) (i : ℕ) (r : Record)
      → Reach enc a codec s
      → Steps s t
      → s.writers i ≡ appended r
      → At 0 (logged t) r.seq r
  appended-At s t i r reach st e =
      let inv = Reach-Inv enc a codec trips s reach in
      let (more, grown) = logged-Steps s t reach st in
      let here_now : At 0 (logged s) r.seq r =
        subst (λ (xs : List Record). At 0 xs r.seq r) (sym (logged-live enc a codec trips s inv))
          (subst (WriterOk (length inv.gone) (s.archived ++ inv.live) s.store.published) e
            (inv.writer i)) in
      subst (λ (xs : List Record). At 0 xs r.seq r) (sym grown) (At-append more here_now)
