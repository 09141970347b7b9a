-- ===== src/Conf/Check/Stages.antt =====
-- The stages of `checkAndFillMissing` of internal/conf/path.go: what each of them keeps.
use Prim.Native.String.{String}
use text.Mathlib.Text.{◌==◌ as str_eq, starts_with}
use text.Mathlib.TextEquality.{eq_iff}
use rtc_simple_server.Base.{
  is_some, Bool-cases, ◌≡◌, refl, sym, ap, subst, ◌∙◌, ◌⊎◌, inl, inr, Bool, true, false, ◌||◌,
  arith,
}
use rtc_simple_server.Conf.Settings.{Settings, or_text}
use rtc_simple_server.Conf.Check.{Parsers, Context, Checked, bad, good, ◌>>=◌}
use rtc_simple_server.Conf.Check.Source.{
  check_name, is_rtsp, is_rtmp, is_hls, check_rtsp, check_rtmp, check_hls, check_udp,
  check_redirect, check_camera, check_source,
}
use rtc_simple_server.Conf.Check.Path.{
  check_on_demand, check_fallback, check_credentials, check_commands, check_and_fill_missing,
}

-- A sequence succeeds where both parts do.
pub inversion :
    {A B : Type 0} (x : Checked A) (k : A → Checked B) (b : B)
    → x >>= k ≡ good b
    → (a : A) × (x ≡ good a) × (k a ≡ good b)
inversion (bad e) k b h = absurd (ground (arith, h))
inversion (good a) k b h = (a, refl, h)

-- The fields of which acceptance speaks; the stages keep them.
pub record Kept (s t : Settings) : Type 0 where
  pub source : t.source ≡ s.source
  pub run_on_demand : t.run_on_demand ≡ s.run_on_demand
  pub cam_id : t.camera.cam_id ≡ s.camera.cam_id

pub Kept-refl : {s t : Settings} → t ≡ s → Kept s t
Kept-refl e = record {
  source = ap (λ s. s.source) e;
  run_on_demand = ap (λ s. s.run_on_demand) e;
  cam_id = ap (λ s. s.camera.cam_id) e;
}

pub Kept-trans : {s t u : Settings} → Kept s t → Kept t u → Kept s u
Kept-trans k l = record {
  source = l.source ∙ k.source;
  run_on_demand = l.run_on_demand ∙ k.run_on_demand;
  cam_id = l.cam_id ∙ k.cam_id;
}

check_rtsp-same : (p : Parsers) (s t : Settings) → check_rtsp p s ≡ good t → t ≡ s
unfolding check_rtsp
check_rtsp-same p s t e = ground (arith, e)

check_rtmp-same : (p : Parsers) (s t : Settings) → check_rtmp p s ≡ good t → t ≡ s
unfolding check_rtmp
check_rtmp-same p s t e = ground (arith, e)

check_hls-same : (p : Parsers) (s t : Settings) → check_hls p s ≡ good t → t ≡ s
unfolding check_hls
check_hls-same p s t e = ground (arith, e)

check_udp-same : (p : Parsers) (s t : Settings) → check_udp p s ≡ good t → t ≡ s
unfolding check_udp
check_udp-same p s t e = ground (arith, e)

check_redirect-same : (p : Parsers) (s t : Settings) → check_redirect p s ≡ good t → t ≡ s
unfolding check_redirect
check_redirect-same p s t e = ground (arith, e)

pub check_camera-Kept :
    (conf : Context) (name : String) (s t : Settings) → check_camera conf name s ≡ good t → Kept s t
unfolding check_camera
check_camera-Kept conf name s t e = elim (Bool-cases (is_some s.regexp)) [
  | inl h ↦ absurd (ground (arith, h, e))
  | inr h ↦ record {
    source = ground (arith, h, e);
    run_on_demand = ground (arith, h, e);
    cam_id = ground (arith, h, e);
  }
]

pub check_credentials-same :
    (conf : Context) (s t : Settings) → check_credentials conf s ≡ good t → t ≡ s
unfolding check_credentials
check_credentials-same conf s t e = ground (arith, e)

pub check_fallback-same : (p : Parsers) (s t : Settings) → check_fallback p s ≡ good t → t ≡ s
unfolding check_fallback
check_fallback-same p s t e = ground (arith, e)

pub check_name-Kept :
    (p : Parsers) (name : String) (s t : Settings) → check_name p name s ≡ good t → Kept s t
unfolding check_name
check_name-Kept p name s t e = record {
  source = ground (arith, e);
  run_on_demand = ground (arith, e);
  cam_id = ground (arith, e);
}

pub check_on_demand-Kept : (s t : Settings) → check_on_demand s ≡ good t → Kept s t
unfolding check_on_demand
check_on_demand-Kept s t e = record {
  source = ground (arith, e);
  run_on_demand = ground (arith, e);
  cam_id = ground (arith, e);
}

pub check_commands-Kept : (s t : Settings) → check_commands s ≡ good t → Kept s t
unfolding check_commands
check_commands-Kept s t e = record {
  source = ground (arith, e);
  run_on_demand = ground (arith, e);
  cam_id = ground (arith, e);
}

-- The switch accepts three kinds of sources.
abbrev pub is_known : String → Bool
is_known source =
    str_eq source "publisher"
    || is_rtsp source
    || is_rtmp source
    || is_hls source
    || starts_with source "udp://"
    || str_eq source "redirect"
    || str_eq source "rpiCamera"

-- A camera is no other kind of source.
abbrev pub is_other : String → Bool
is_other source =
    str_eq source "publisher"
    || is_rtsp source
    || is_rtmp source
    || is_hls source
    || starts_with source "udp://"
    || str_eq source "redirect"

is_other-camera : (source : String) → str_eq source "rpiCamera" ≡ true → is_other source ≡ false
is_other-camera source h =
    subst (λ s. is_other s ≡ false) (sym ((eq_iff source "rpiCamera").0 h)) refl

-- A source that is accepted is left as it is, unless it is a camera.
pub check_source-cases :
    (p : Parsers) (conf : Context) (name : String) (s t : Settings)
    → check_source p conf name s ≡ good t
    → (is_known s.source ≡ true)
      × (((str_eq s.source "rpiCamera" ≡ false) × (t ≡ s))
          ⊎ ((str_eq s.source "rpiCamera" ≡ true) × (check_camera conf name s ≡ good t)))
unfolding check_source
check_source-cases p conf name s t e = elim (Bool-cases (str_eq s.source "publisher")) [
  | inl a ↦
      (ground (arith, a), inl (ground (arith, is_other-camera s.source, a), ground (arith, a, e)))
  | inr a ↦ elim (Bool-cases (is_rtsp s.source)) [
    | inl b ↦ (
      ground (arith, a, b),
      inl (ground (arith, is_other-camera s.source, a, b), check_rtsp-same p s t (rw (a, b) at e)),
    )
    | inr b ↦ elim (Bool-cases (is_rtmp s.source)) [
      | inl c ↦ (
        ground (arith, a, b, c),
        inl (
          ground (arith, is_other-camera s.source, a, b, c),
          check_rtmp-same p s t (rw (a, b, c) at e),
        ),
      )
      | inr c ↦ elim (Bool-cases (is_hls s.source)) [
        | inl d ↦ (
          ground (arith, a, b, c, d),
          inl (
            ground (arith, is_other-camera s.source, a, b, c, d),
            check_hls-same p s t (rw (a, b, c, d) at e),
          ),
        )
        | inr d ↦ elim (Bool-cases (starts_with s.source "udp://")) [
          | inl f ↦ (
            ground (arith, a, b, c, d, f),
            inl (
              ground (arith, is_other-camera s.source, a, b, c, d, f),
              check_udp-same p s t (rw (a, b, c, d, f) at e),
            ),
          )
          | inr f ↦ elim (Bool-cases (str_eq s.source "redirect")) [
            | inl g ↦ (
              ground (arith, a, b, c, d, f, g),
              inl (
                ground (arith, is_other-camera s.source, a, b, c, d, f, g),
                check_redirect-same p s t (rw (a, b, c, d, f, g) at e),
              ),
            )
            | inr g ↦ elim (Bool-cases (str_eq s.source "rpiCamera")) [
              | inl h ↦
                  (ground (arith, a, b, c, d, f, g, h), inr (h, rw (a, b, c, d, f, g, h) at e))
              | inr h ↦ absurd (ground (arith, a, b, c, d, f, g, h, e))
            ]
          ]
        ]
      ]
    ]
  ]
]

pub check_source-Kept :
    (p : Parsers) (conf : Context) (name : String) (s t : Settings)
    → check_source p conf name s ≡ good t
    → (is_known s.source ≡ true) × Kept s t
check_source-Kept p conf name s t e =
    let (known, cases) = check_source-cases p conf name s t e in
    (
      known,
      elim cases [
        | inl (other, same) ↦ Kept-refl same
        | inr (camera, found) ↦ check_camera-Kept conf name s t found
      ],
    )

pub check_commands-publisher :
    (s t : Settings)
    → check_commands s ≡ good t
    → str_eq s.run_on_demand "" ≡ false
    → str_eq s.source "publisher" ≡ true
unfolding check_commands
check_commands-publisher s t e h = ground (arith, e, h)

-- What comes to the switch over the source, and what it leaves for the end.
pub check_and_fill_missing_stages :
    (p : Parsers) (conf : Context) (name : String) (s t : Settings)
    → check_and_fill_missing p conf name s ≡ good t
    → (a : Settings) × (b : Settings) × (a.source ≡ or_text "publisher" s.source)
      × (a.camera.cam_id ≡ s.camera.cam_id)
      × (check_source p conf name a ≡ good b)
      × Kept b t
unfolding check_and_fill_missing
check_and_fill_missing_stages p conf name s t e =
    let (a, ea, e1) = inversion (check_name p name s) _ t e in
    let a' = record a { source = or_text "publisher" a.source } in
    let (b, eb, e2) = inversion (check_source p conf name a') _ t e1 in
    let (c, ec, e3) = inversion (check_on_demand b) _ t e2 in
    let (d, ed, e4) = inversion (check_fallback p c) _ t e3 in
    let (f, ef, e5) = inversion (check_credentials conf d) _ t e4 in
    let ka = check_name-Kept p name s a ea in
    (
      a',
      b,
      ap (or_text "publisher") ka.source,
      ka.cam_id,
      eb,
      Kept-trans (check_on_demand-Kept b c ec) (
          Kept-trans (Kept-refl (check_fallback-same p c d ed)) (
            Kept-trans (Kept-refl (check_credentials-same conf d f ef))
              (check_commands-Kept f t e5))),
    )
