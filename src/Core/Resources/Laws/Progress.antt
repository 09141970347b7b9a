-- ===== src/Core/Resources/Laws/Progress.antt =====
-- `createResources` of internal/core/core.go from part to part.
use rtc_simple_server.Base.{
  ◌==◌, is_some, ==_iff, ==_refl, Bool-cases, ◌≡◌, refl, sym, ap, subst, ◌∙◌, inl, inr, Bool, true,
  false, not, Option, none, some, List, [], ◌∷◌, map, arith,
}
use rtc_simple_server.Core.Resources.Settings.{CoreConf, Part, part_code, part_code_eq}
use rtc_simple_server.Core.Resources.Inputs.{wanted}
use rtc_simple_server.Core.Resources.Defs.{Instance, Core, number_of, create, closes}
use rtc_simple_server.Core.Resources.Laws.Watched.{followed, bound, closes-followed, closes-wanted}
use rtc_simple_server.Core.Resources.Laws.Closed.{has_part, set_part-other}
use rtc_simple_server.Core.Resources.Laws.Made.{
  Current, free, free-tail, Current-create, create-Current,
}
use rtc_simple_server.Core.Resources.Laws.Bound.{closes_any, closes-bound}

unfoldable pub UpToDate : Core → Type 0
UpToDate p = (k : Part) → Current p k (p.parts k)

-- The parts that a change to another configuration leaves are up to date.
unfoldable pub KeptUpToDate : Core → CoreConf → Type 0
KeptUpToDate old new =
    (k : Part) → closes k (some new) old.conf ≡ false → Current old k (old.parts k)

-- The state of `createResources` before it comes to the parts ks: `old` is the core before the
-- reload.
pub record Progress (old : Core) (new : CoreConf) (ks : List Part) (p : Core) : Type 0 where
  pub conf : p.conf ≡ new
  pub kept : (k : Part) → closes k (some new) old.conf ≡ false → p.parts k ≡ old.parts k
  pub gone :
      (k : Part) → closes k (some new) old.conf ≡ true → has_part k ks ≡ true → p.parts k ≡ none
  pub made :
      (k : Part)
      → closes k (some new) old.conf ≡ true
      → has_part k ks ≡ false
      → Current p k (p.parts k) × (free (bound k) ks ≡ true)

pub Current-is_some :
    (p : Core) (k : Part) (v : Option Instance) → Current p k v → is_some v ≡ wanted k p.conf
unfolding Current
Current-is_some p k none c = sym c
Current-is_some p k (some i) c = sym c.0

kept-numbers :
    (old : Core) (new : CoreConf) (parts : Part → Option Instance) (ls : List Part)
    → ((k : Part) → closes k (some new) old.conf ≡ false → parts k ≡ old.parts k)
    → closes_any ls new old.conf ≡ false
    → map (λ l. number_of (old.parts l)) ls ≡ map (λ l. number_of (parts l)) ls
unfolding closes_any
kept-numbers old new parts [] h c = refl
kept-numbers old new parts (l ∷ ls) h c =
    cc (h l (ground (arith, c)), kept-numbers old new parts ls h (ground (arith, c)))

kept-Current :
    (old p : Core) (new : CoreConf) (k : Part) (v : Option Instance)
    → closes k (some new) old.conf ≡ false
    → ((l : Part) → closes l (some new) old.conf ≡ false → p.parts l ≡ old.parts l)
    → p.conf ≡ new
    → Current old k v
    → Current p k v
unfolding Current
kept-Current old p new k none c h e w = ap (wanted k) e ∙ sym (closes-wanted k new old.conf c) ∙ w
kept-Current old p new k (some i) c h e w = (
  ap (wanted k) e ∙ sym (closes-wanted k new old.conf c) ∙ w.0,
  w.1 ∙ closes-followed k new old.conf c ∙ ap (λ d. map d (followed k)) (sym e),
  w.2 ∙ kept-numbers old new p.parts (bound k) h (closes-bound k new old.conf c),
)

pub Progress-UpToDate :
    (old p : Core) (new : CoreConf) → KeptUpToDate old new → Progress old new [] p → UpToDate p
unfolding UpToDate KeptUpToDate has_part
Progress-UpToDate old p new u g k = elim (Bool-cases (closes k (some new) old.conf)) [
  | inl e ↦ (g.made k e refl).0
  | inr e ↦
      subst (Current p k) (sym (g.kept k e)) (kept-Current old p new k _ e g.kept g.conf (u k e))
]

step-made :
    (c : Part → Bool) (k : Part) (ks : List Part) (P : Part → Type 0)
    → (c k ≡ true → P k)
    → ((l : Part) → c l ≡ true → has_part l (k ∷ ks) ≡ false → P l)
    → (l : Part) → c l ≡ true
    → has_part l ks ≡ false
    → P l
unfolding has_part
step-made c k ks P now before l e h = elim (Bool-cases (part_code k == part_code l)) [
  | inl same ↦
      let eq = part_code_eq k l ((==_iff (part_code k) (part_code l)).0 same) in
      subst P eq (now (ap c eq ∙ e))
  | inr other ↦ before l e (ground (arith, other, h))
]

pub has_part-head : (k : Part) (ks : List Part) → has_part k (k ∷ ks) ≡ true
unfolding has_part
has_part-head k ks = ground (arith, ==_refl (part_code k))

has_part-tail : (l k : Part) (ks : List Part) → has_part l ks ≡ true → has_part l (k ∷ ks) ≡ true
unfolding has_part
has_part-tail l k ks h = ground (arith, h)

not-Current : (p : Core) (k : Part) → wanted k p.conf ≡ false → Current p k none
unfolding Current
not-Current p k h = h

-- A part that is there already, or is not wanted, is passed over.
pub Progress-skip :
    (old p : Core) (new : CoreConf) (k : Part) (ks : List Part)
    → free (bound k) (k ∷ ks) ≡ true
    → (closes k (some new) old.conf ≡ true → wanted k p.conf ≡ false)
    → Progress old new (k ∷ ks) p
    → Progress old new ks p
Progress-skip old p new k ks f w g = record {
  conf = g.conf;
  kept = g.kept;
  gone = λ l c h. g.gone l c (has_part-tail l k ks h);
  made =
      step-made (λ l. closes l (some new) old.conf) k ks
        (λ l. Current p l (p.parts l) × (free (bound l) ks ≡ true))
        (λ c. (
          subst (Current p k) (sym (g.gone k c (has_part-head k ks))) (not-Current p k (w c)),
          free-tail (bound k) k ks f,
        ))
        (λ l c h. let m = g.made l c h in (m.0, free-tail (bound l) k ks m.1));
}

create-other :
    (k l : Part) (p : Core)
    → (part_code k == part_code l) ≡ false
    → (create k p).parts l ≡ p.parts l
unfolding create
create-other k l p h = set_part-other k l _ p.parts h

codes-differ :
    (c : Part → Bool) (k l : Part) → c k ≡ true → c l ≡ false → (part_code k == part_code l) ≡ false
codes-differ c k l h e = elim (Bool-cases (part_code k == part_code l)) [
  | inl same ↦
      let eq = part_code_eq k l ((==_iff (part_code k) (part_code l)).0 same) in
      ground (arith, sym h ∙ ap c eq ∙ e)
  | inr other ↦ other
]

create-conf : (k : Part) (p : Core) → (create k p).conf ≡ p.conf
unfolding create
create-conf k p = refl

pub Progress-create :
    (old p : Core) (new : CoreConf) (k : Part) (ks : List Part)
    → free (bound k) (k ∷ ks) ≡ true
    → has_part k ks ≡ false
    → closes k (some new) old.conf ≡ true
    → wanted k p.conf ≡ true
    → Progress old new (k ∷ ks) p
    → Progress old new ks (create k p)
unfolding has_part
Progress-create old p new k ks f n c w g = record {
  conf = create-conf k p ∙ g.conf;
  kept = λ l e.
      create-other k l p (codes-differ (λ l. closes l (some new) old.conf) k l c e) ∙ g.kept l e;
  gone = λ l e h.
      create-other k l p (codes-differ (λ l. not (has_part l ks)) k l (ap not n) (ap not h))
      ∙ g.gone l e (has_part-tail l k ks h);
  made =
      step-made (λ l. closes l (some new) old.conf) k ks
        (λ l. Current (create k p) l ((create k p).parts l) × (free (bound l) ks ≡ true))
        (λ e. (create-Current k ks p f w, free-tail (bound k) k ks f))
        (λ l e h.
          let m = g.made l e h in
          (
            subst (Current (create k p) l) (sym (create-other k l p (ground (arith, h))))
                (Current-create k l ks p (p.parts l) m.1 m.0),
            free-tail (bound l) k ks m.1,
          ));
}
