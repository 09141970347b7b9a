-- ===== src/Core/Resources/Laws/Made.antt =====
-- Which parts `createResources` of internal/core/core.go adds, and what they are made with.
use rtc_simple_server.Base.{
  ◌≡◌, refl, sym, subst, ◌∙◌, Bool, true, false, not, ◌&&◌, Option, none, some, List, [], ◌∷◌, map,
  arith,
}
use rtc_simple_server.Core.Resources.Settings.{Part, part_code}
use rtc_simple_server.Core.Resources.Inputs.{needs, wanted}
use rtc_simple_server.Core.Resources.Defs.{
  Instance, Core, number_of, set_part, create, creation_order,
}
use rtc_simple_server.Core.Resources.Laws.Watched.{followed, bound}
use rtc_simple_server.Core.Resources.Laws.Closed.{has_part, set_part-same, set_part-other}

-- There is a part just where the configuration wants it, it was made with the settings that it
-- follows, and it uses the parts of now.
unfoldable pub Current : Core → Part → Option Instance → Type 0
Current p k none = wanted k p.conf ≡ false
Current p k (some i) =
    (wanted k p.conf ≡ true)
    × (map i.conf (followed k) ≡ map p.conf (followed k))
    × (map i.others (bound k) ≡ map (λ l. number_of (p.parts l)) (bound k))

unfoldable pub free : List Part → List Part → Bool
unfolding has_part
free [] ks = true
free (l ∷ ls) ks = not (has_part l ks) && free ls ks

-- Each part is given only parts that are created before it.
unfoldable pub ordered : List Part → Bool
unfolding has_part free bound
ordered [] = true
ordered (k ∷ ks) = free (bound k) (k ∷ ks) && (not (has_part k ks) && ordered ks)

pub creation_order-ordered : ordered creation_order ≡ true
unfolding ordered free has_part bound needs creation_order part_code
creation_order-ordered = refl

pub free-tail :
    (ls : List Part) (k : Part) (ks : List Part) → free ls (k ∷ ks) ≡ true → free ls ks ≡ true
unfolding free has_part
free-tail [] k ks h = refl
free-tail (l ∷ ls) k ks h = ground (arith, h, free-tail ls k ks)

numbers-set_part :
    (ls : List Part) (k : Part) (ks : List Part) (v : Option Instance)
    (parts : Part → Option Instance)
    → free ls (k ∷ ks) ≡ true
    → map (λ l. number_of (parts l)) ls ≡ map (λ l. number_of (set_part k v parts l)) ls
unfolding free has_part
numbers-set_part [] k ks v parts h = refl
numbers-set_part (l ∷ ls) k ks v parts h = cc (
  numbers-set_part ls k ks v parts (ground (arith, h)),
  set_part-other k l v parts (ground (arith, h)),
)

-- A part stays current when another is made that it does not use.
pub Current-create :
    (k l : Part) (ks : List Part) (p : Core) (v : Option Instance)
    → free (bound l) (k ∷ ks) ≡ true
    → Current p l v
    → Current (create k p) l v
unfolding Current create
Current-create k l ks p none h c = c
Current-create k l ks p (some i) h c = (c.0, c.1, c.2 ∙ numbers-set_part (bound l) k ks _ p.parts h)

pub create-Current :
    (k : Part) (ks : List Part) (p : Core)
    → free (bound k) (k ∷ ks) ≡ true
    → wanted k p.conf ≡ true
    → Current (create k p) k ((create k p).parts k)
unfolding Current create
create-Current k ks p h w =
    subst (Current (create k p) k) (sym (set_part-same k _ p.parts))
      (w, refl, numbers-set_part (bound k) k ks _ p.parts h)
