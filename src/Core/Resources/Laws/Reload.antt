-- ===== src/Core/Resources/Laws/Reload.antt =====
-- `reloadConf` of internal/core/core.go as a whole.
use rtc_simple_server.Base.{
  is_some, Bool-cases, ◌≡◌, refl, sym, ap, subst, ◌∙◌, inl, inr, Bool, true, false, not, ◌&&◌, some,
  List, [], ◌∷◌, arith,
}
use rtc_simple_server.Core.Resources.Settings.{
  CoreConf, Part, part_code, logger, path_manager, rtsp_server, rtsps_server, rtmp_server,
  rtmps_server, hls_server, webrtc_server,
}
use rtc_simple_server.Core.Resources.Inputs.{wanted}
use rtc_simple_server.Core.Resources.Defs.{
  Core, Created, created, failed, create, create_from, creation_order, create_resources, closes,
  close_resources, reload_conf,
}
use rtc_simple_server.Core.Resources.Laws.Watched.{closes-wanted}
use rtc_simple_server.Core.Resources.Laws.Closed.{has_part, close_resources-parts}
use rtc_simple_server.Core.Resources.Laws.Made.{ordered, creation_order-ordered}
use rtc_simple_server.Core.Resources.Laws.Told.{Informed, create-Informed, begun-Informed}
use rtc_simple_server.Core.Resources.Laws.Progress.{
  UpToDate, KeptUpToDate, Progress, Progress-UpToDate, Progress-skip, Progress-create,
  Current-is_some, has_part-head,
}

-- What may come of a reload: all parts are up to date, or the constructor of one has failed.
unfoldable pub Outcome : (Part → CoreConf → Bool) → CoreConf → Created → Type 0
Outcome opens new (created q) = (q.conf ≡ new) × UpToDate q
Outcome opens new (failed k q) = opens k new ≡ false

still_kept :
    (old p : Core) (new : CoreConf) (k : Part) (ks : List Part)
    → KeptUpToDate old new
    → Progress old new ks p
    → (wanted k p.conf && not (is_some (p.parts k))) ≡ true
    → closes k (some new) old.conf ≡ true
unfolding KeptUpToDate
still_kept old p new k ks u g h = elim (Bool-cases (closes k (some new) old.conf)) [
  | inl e ↦ e
  | inr e ↦ ground (
    arith,
    h,
    ap is_some (g.kept k e)
        ∙ Current-is_some old k (old.parts k) (u k e)
        ∙ closes-wanted k new old.conf e
        ∙ ap (wanted k) (sym g.conf),
  )
]

gone_unwanted :
    (old p : Core) (new : CoreConf) (k : Part) (ks : List Part)
    → Progress old new (k ∷ ks) p
    → (wanted k p.conf && not (is_some (p.parts k))) ≡ false
    → closes k (some new) old.conf ≡ true
    → wanted k p.conf ≡ false
gone_unwanted old p new k ks g h e = ground (arith, h, ap is_some (g.gone k e (has_part-head k ks)))

-- The three ways on from a part.
pub create_from-steps :
    (opens : Part → CoreConf → Bool) (k : Part) (ks : List Part) (p : Core) (P : Created → Type 0)
    → ((wanted k p.conf && not (is_some (p.parts k))) ≡ true
        → opens k p.conf ≡ true
        → P (create_from opens ks (create k p)))
    → (opens k p.conf ≡ false → P (failed k p))
    → ((wanted k p.conf && not (is_some (p.parts k))) ≡ false → P (create_from opens ks p))
    → P (create_from opens (k ∷ ks) p)
unfolding create_from
create_from-steps opens k ks p P made shut skipped =
    elim (Bool-cases (wanted k p.conf && not (is_some (p.parts k)))) [
      | inl e ↦ elim (Bool-cases (opens k p.conf)) [
        | inl opened ↦ subst P (sym (ground (arith, e, opened))) (made e opened)
        | inr refused ↦ subst P (sym (ground (arith, e, refused))) (shut refused)
      ]
      | inr e ↦ subst P (sym (ground (arith, e))) (skipped e)
    ]

pub create_from-Outcome :
    (opens : Part → CoreConf → Bool) (old : Core) (new : CoreConf) (ks : List Part) (p : Core)
    → KeptUpToDate old new
    → ordered ks ≡ true
    → Progress old new ks p
    → Outcome opens new (create_from opens ks p)
unfolding create_from Outcome ordered
create_from-Outcome opens old new [] p u o g = (g.conf, Progress-UpToDate old p new u g)
create_from-Outcome opens old new (k ∷ ks) p u o g =
    create_from-steps opens k ks p (Outcome opens new)
      (λ e opened. create_from-Outcome opens old new ks (create k p) u (ground (arith, o)) (
        Progress-create old p new k ks (ground (arith, o)) (ground (arith, o))
          (still_kept old p new k (k ∷ ks) u g e) (ground (arith, e)) g))
      (λ refused. ap (opens k) (sym g.conf) ∙ refused)
      (λ e.
        create_from-Outcome opens old new ks p u (ground (arith, o))
          (Progress-skip old p new k ks (ground (arith, o)) (gone_unwanted old p new k ks g e) g))

pub all_created : (k : Part) → has_part k creation_order ≡ true
unfolding has_part creation_order part_code
all_created logger = refl
all_created Part.metrics = refl
all_created Part.pprof = refl
all_created path_manager = refl
all_created rtsp_server = refl
all_created rtsps_server = refl
all_created rtmp_server = refl
all_created rtmps_server = refl
all_created hls_server = refl
all_created webrtc_server = refl
all_created Part.api = refl

begun :
    (old : Core) (new : CoreConf) (called_by_api : Bool)
    → Progress old new creation_order
        (record (close_resources (some new) called_by_api old) { conf = new })
begun old new called_by_api = record {
  conf = refl;
  kept = λ k e. ground (arith, e, close_resources-parts (some new) called_by_api old k);
  gone = λ k e h. ground (arith, e, close_resources-parts (some new) called_by_api old k);
  made = λ k e h. ground (arith, h, all_created k);
}

-- A reload that fails ends the program.
unfoldable pub Known : Bool → Created → Type 0
Known called_by_api (created q) = Informed called_by_api q
Known called_by_api (failed k q) = Unit

pub create_from-Known :
    (opens : Part → CoreConf → Bool) (called_by_api : Bool) (ks : List Part) (p : Core)
    → Informed called_by_api p
    → Known called_by_api (create_from opens ks p)
unfolding create_from Known
create_from-Known opens called_by_api [] p h = h
create_from-Known opens called_by_api (k ∷ ks) p h =
    create_from-steps opens k ks p (Known called_by_api)
      (λ e opened.
        create_from-Known opens called_by_api ks (create k p) (create-Informed called_by_api k p h))
      (λ refused. tt) (λ e. create_from-Known opens called_by_api ks p h)

-- From parts that are up to date, a reload of the configuration either brings all parts up to date
-- with the new one, or ends with an error at a part whose constructor fails. A part is up to date
-- if it is there just where the configuration wants it, was made with the values that the
-- configuration has, and uses the parts that there are now; this leaves out the level of the
-- logger, and the RTMPS server that the API has. Besides, a path manager that is there has been given
-- the paths of the new configuration, and an API that is there the new configuration, unless it was
-- the API that set it.
pub reload_conf-Outcome :
    (opens : Part → CoreConf → Bool) (new : CoreConf) (called_by_api : Bool) (p : Core)
    → UpToDate p
    → Informed true p
    → Outcome opens new (reload_conf opens new called_by_api p)
      × Known called_by_api (reload_conf opens new called_by_api p)
unfolding reload_conf create_resources UpToDate KeptUpToDate
reload_conf-Outcome opens new called_by_api p u h =
    let q : Core = record (close_resources (some new) called_by_api p) { conf = new } in
    (
      create_from-Outcome opens p new creation_order q (λ k e. u k) creation_order-ordered
          (begun p new called_by_api),
      create_from-Known opens called_by_api creation_order q (begun-Informed new called_by_api p h),
    )
