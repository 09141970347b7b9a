-- ===== src/Core/Resources/Laws/Closed.antt =====
-- Which parts `closeResources` of internal/core/core.go leaves.
use rtc_simple_server.Base.{
  ◌==◌, if◌then◌else◌, is_some, ==_iff, ==_refl, Bool-cases, ◌≡◌, refl, ap, subst, ◌∙◌, inl, inr,
  Bool, true, false, not, ◌&&◌, ◌||◌, Option, none, List, [], ◌∷◌, arith,
}
use rtc_simple_server.Core.Resources.Settings.{
  CoreConf, Part, part_code, part_code_eq, paths, logger, path_manager, rtsp_server, rtsps_server,
  rtmp_server, rtmps_server, hls_server, webrtc_server,
}
use rtc_simple_server.Core.Resources.Defs.{
  Instance, Core, set_part, closes, close, close_if, close_from, close_order, pass_paths, pass_conf,
  close_path_manager, settings_differ, close_resources,
}

unfoldable pub has_part : Part → List Part → Bool
has_part k [] = false
has_part k (l ∷ ls) = part_code l == part_code k || has_part k ls

pub close_if-conf : (k : Part) (new : Option CoreConf) (p : Core) → (close_if k new p).conf ≡ p.conf
unfolding close_if close
close_if-conf k new p = ground (arith, Bool-cases (closes k new p.conf && is_some (p.parts k)))

close_from-conf :
    (ks : List Part) (new : Option CoreConf) (p : Core) → (close_from ks new p).conf ≡ p.conf
unfolding close_from
close_from-conf [] new p = refl
close_from-conf (k ∷ ks) new p = close_from-conf ks new (close_if k new p) ∙ close_if-conf k new p

pub set_part-same :
    (k : Part) (v : Option Instance) (parts : Part → Option Instance) → set_part k v parts k ≡ v
unfolding set_part
set_part-same k v parts = ground (arith, ==_refl (part_code k))

pub set_part-other :
    (k l : Part) (v : Option Instance) (parts : Part → Option Instance)
    → (part_code k == part_code l) ≡ false
    → set_part k v parts l ≡ parts l
unfolding set_part
set_part-other k l v parts h = ground (arith, h)

close_if-parts-same :
    (k : Part) (new : Option CoreConf) (p : Core)
    → (close_if k new p).parts k
      ≡ (if part_code k == part_code k && closes k new p.conf then none else p.parts k)
unfolding close_if close
close_if-parts-same k new p = ground (arith, ==_refl (part_code k), set_part-same k none p.parts)

close_if-parts :
    (k l : Part) (new : Option CoreConf) (p : Core)
    → (close_if k new p).parts l
      ≡ (if part_code k == part_code l && closes l new p.conf then none else p.parts l)
unfolding close_if close
close_if-parts k l new p = elim (Bool-cases (part_code k == part_code l)) [
  | inl e ↦
      subst
        (λ m.
          (close_if k new p).parts m
          ≡ (if part_code k == part_code m && closes m new p.conf then none else p.parts m))
        (part_code_eq k l ((==_iff (part_code k) (part_code l)).0 e)) (close_if-parts-same k new p)
  | inr e ↦ ground (arith, e, set_part-other k l none p.parts e)
]

merge :
    (a e c : Bool) (x : Option Instance)
    → (if a && c then none else (if e && c then none else x)) ≡ (if (e || a) && c then none else x)
merge a e c x = ground arith

close_from-parts :
    (ks : List Part) (new : Option CoreConf) (p : Core) (l : Part)
    → (close_from ks new p).parts l
      ≡ (if has_part l ks && closes l new p.conf then none else p.parts l)
unfolding close_from has_part
close_from-parts [] new p l = refl
close_from-parts (k ∷ ks) new p l =
    close_from-parts ks new (close_if k new p) l
    ∙ ap (λ c. if has_part l ks && closes l new c then none else (close_if k new p).parts l)
        (close_if-conf k new p)
    ∙ ap (λ x. if has_part l ks && closes l new p.conf then none else x) (close_if-parts k l new p)
    ∙ merge (has_part l ks) (part_code k == part_code l) (closes l new p.conf) (p.parts l)

pub pass_paths-parts :
    (b : Bool) (new : Option CoreConf) (p : Core) → (pass_paths b new p).parts ≡ p.parts
unfolding pass_paths
pass_paths-parts true new p = refl
pass_paths-parts false new p = refl

pass_paths-conf : (b : Bool) (new : Option CoreConf) (p : Core) → (pass_paths b new p).conf ≡ p.conf
unfolding pass_paths
pass_paths-conf true new p = refl
pass_paths-conf false new p = refl

pass_conf-parts :
    (b c : Bool) (new : Option CoreConf) (p : Core) → (pass_conf b c new p).parts ≡ p.parts
unfolding pass_conf
pass_conf-parts false c new p = refl
pass_conf-parts true true new p = refl
pass_conf-parts true false new p = refl

pass_conf-conf :
    (b c : Bool) (new : Option CoreConf) (p : Core) → (pass_conf b c new p).conf ≡ p.conf
unfolding pass_conf
pass_conf-conf false c new p = refl
pass_conf-conf true true new p = refl
pass_conf-conf true false new p = refl

-- A close tells the path manager and the API nothing.
pub close_from-told :
    (ks : List Part) (new : Option CoreConf) (p : Core)
    → ((close_from ks new p).manager_paths ≡ p.manager_paths)
      × ((close_from ks new p).api_told ≡ p.api_told)
unfolding close_from close_if close
close_from-told [] new p = (refl, refl)
close_from-told (k ∷ ks) new p =
    let h = close_from-told ks new (close_if k new p) in
    elim (Bool-cases (closes k new p.conf && is_some (p.parts k))) [
      | inl e ↦ (
        h.0 ∙ ap (λ b. (if b then close k p else p).manager_paths) e,
        h.1 ∙ ap (λ b. (if b then close k p else p).api_told) e,
      )
      | inr e ↦ (
        h.0 ∙ ap (λ b. (if b then close k p else p).manager_paths) e,
        h.1 ∙ ap (λ b. (if b then close k p else p).api_told) e,
      )
    ]

all_closed : (k : Part) → (has_part k (Part.api ∷ []) || has_part k close_order) ≡ true
unfolding has_part close_order part_code
all_closed logger = refl
all_closed Part.metrics = refl
all_closed Part.pprof = refl
all_closed path_manager = refl
all_closed rtsp_server = refl
all_closed rtsps_server = refl
all_closed rtmp_server = refl
all_closed rtmps_server = refl
all_closed hls_server = refl
all_closed webrtc_server = refl
all_closed Part.api = refl

sent-parts :
    (b c d : Bool) (new : Option CoreConf) (p : Core) (l : Part)
    → (close_from close_order new
          (close_from (Part.api ∷ []) new (pass_conf c d new (pass_paths b new p)))).parts
        l
      ≡ (if closes l new p.conf then none else p.parts l)
sent-parts b c d new p l =
    let q = pass_conf c d new (pass_paths b new p) in
    let r = close_from (Part.api ∷ []) new q in
    let conf = pass_conf-conf c d new (pass_paths b new p) ∙ pass_paths-conf b new p in
    close_from-parts close_order new r l
    ∙ ap (λ x. if has_part l close_order && closes l new x then none else r.parts l)
        (close_from-conf (Part.api ∷ []) new q ∙ conf)
    ∙ ap (λ x. if has_part l close_order && closes l new p.conf then none else x)
        (close_from-parts (Part.api ∷ []) new q l
          ∙ ap (λ x. if has_part l (Part.api ∷ []) && closes l new x then none else q.parts l) conf
          ∙ ap
              (λ parts. if has_part l (Part.api ∷ []) && closes l new p.conf then none else parts l)
              (pass_conf-parts c d new (pass_paths b new p) ∙ pass_paths-parts b new p))
    ∙ merge (has_part l close_order) (has_part l (Part.api ∷ [])) (closes l new p.conf) (p.parts l)
    ∙ ap (λ b. if b && closes l new p.conf then none else p.parts l) (all_closed l)

-- A part that is not to be closed is left as it is.
pub close_resources-parts :
    (new : Option CoreConf) (called_by_api : Bool) (p : Core) (l : Part)
    → (close_resources new called_by_api p).parts l
      ≡ (if closes l new p.conf then none else p.parts l)
unfolding close_resources
close_resources-parts new called_by_api p l =
    let b = not (close_path_manager new p.conf) && settings_differ (paths ∷ []) new p.conf in
    let c = is_some ((pass_paths b new p).parts Part.api) && not (closes Part.api new p.conf) in
    sent-parts b c called_by_api new p l
