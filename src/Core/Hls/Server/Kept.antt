-- ===== src/Core/Hls/Server/Kept.antt =====
-- Every event of the HLS server of internal/core/hls_server.go keeps its muxers sound.
use Prim.Native.String.{String}
use rtc_simple_server.Base.{
  if_keeps, ◌==◌, if◌then◌else◌, ==_iff, ==_refl, Bool-cases, ℕ, zero, suc, ◌≡◌, refl, sym, ap,
  subst, ◌∙◌, ◌⊎◌, inl, inr, Bool, true, false, ◌&&◌, some, List, [], ◌∷◌, ◌++◌, length,
  Option-cases, arith,
}
use rtc_simple_server.Core.Hls.Muxer.{
  Muxer, new_muxer, MuxerEvent, closed, run_request, run_destroyed, muxer_step, is_looping,
  can_come,
}
use rtc_simple_server.Base.Text.{lookup, delete}
use rtc_simple_server.Base.Indexed.{get_elem?, modify, get_elem?-modify_other, get_elem?-append}
use rtc_simple_server.Core.Hls.Server.{
  Server, new_server, on_muxer, create_muxer, refuse_request, process_request, ServerEvent,
  source_ready, source_not_ready, request, muxer_close, server_ctx_done, muxer_event,
  handle_source_not_ready, handle_request, is_place, handle_muxer_close, close_all, server_step,
  comes_to, can_process, can_request, server_can, server_run, all_can,
}
use rtc_simple_server.Core.Hls.Muxer.Sound.{Sound, new_muxer-Sound, muxer_step-Sound}

-- Every muxer that was created is sound, whether it is in the map or not.
unfoldable pub AllSound : Server → Type 0
unfolding get_elem?
AllSound s = (i : ℕ) (m : Muxer) → get_elem? s.all i ≡ some m → Sound m

modify-found :
    (ms : List Muxer) (i : ℕ) (f : Muxer → Muxer) (m : Muxer)
    → get_elem? (modify ms i f) i ≡ some m
    → (old : Muxer) × (get_elem? ms i ≡ some old) × (f old ≡ m)
unfolding get_elem? modify
modify-found [] i f m h = cc h
modify-found (x ∷ xs) zero f m h = (x, refl, cc h)
modify-found (x ∷ xs) (suc i) f m h = modify-found xs i f m h

-- A property of all muxers is kept where one of them changes, if the change keeps it.
modify-keeps :
    (P : ℕ → Muxer → Type 0) (ms : List Muxer) (i : ℕ) (f : Muxer → Muxer)
    → ((m : Muxer) → get_elem? ms i ≡ some m → P i m → P i (f m))
    → ((j : ℕ) (m : Muxer) → get_elem? ms j ≡ some m → P j m)
    → (j : ℕ) (m : Muxer) → get_elem? (modify ms i f) j ≡ some m
    → P j m
modify-keeps P ms i f keep all j m h = elim (Bool-cases (i == j)) [
  | inl same ↦
      let eq = (==_iff i j).0 same in
      let (old, there, now) =
        modify-found ms i f m (subst (λ k. get_elem? (modify ms i f) k ≡ some m) (sym eq) h) in
      subst (λ k. P k m) eq (subst (P i) now (keep old there (all i old there)))
  | inr other ↦ all j m (sym (get_elem?-modify_other ms i j f other) ∙ h)
]

-- A muxer that does what it can stays sound.
modify-Sound :
    (i : ℕ) (e : MuxerEvent) (ms : List Muxer)
    → comes_to e (get_elem? ms i) ≡ true
    → ((j : ℕ) (m : Muxer) → get_elem? ms j ≡ some m → Sound m)
    → (j : ℕ) (m : Muxer) → get_elem? (modify ms i (muxer_step e)) j ≡ some m
    → Sound m
unfolding comes_to
modify-Sound i e ms c all =
    modify-keeps (λ j m. Sound m) ms i (muxer_step e)
      (λ m h k. muxer_step-Sound e m (subst (λ o. comes_to e o ≡ true) h c) k) all

on_muxer-AllSound :
    (i : ℕ) (e : MuxerEvent) (s : Server)
    → comes_to e (get_elem? s.all i) ≡ true
    → AllSound s
    → AllSound (on_muxer i e s)
unfolding on_muxer AllSound
on_muxer-AllSound i e s c l = modify-Sound i e s.all c l

-- A muxer of the list after the creation of one is the new one, or was there.
append-cases :
    (ms : List Muxer) (new m : Muxer) (i : ℕ)
    → get_elem? (ms ++ (new ∷ [])) i ≡ some m
    → ((i ≡ length ms) × (new ≡ m)) ⊎ (get_elem? ms i ≡ some m)
append-cases ms new m i h = elim (Bool-cases (i == length ms)) [
  | inl last ↦ inl ((==_iff i (length ms)).0 last, cc (last, get_elem?-append ms new i, h))
  | inr other ↦ inr (cc (other, get_elem?-append ms new i, h))
]

create_muxer-AllSound :
    (name : String) (b : Bool) (s : Server) → AllSound s → AllSound (create_muxer name b s)
unfolding create_muxer new_muxer AllSound
create_muxer-AllSound name b s l i m h =
    elim (append-cases s.all (new_muxer name s.always_remux b) m i h) [
      | inl (last, eq) ↦ subst Sound eq (new_muxer-Sound name s.always_remux b)
      | inr there ↦ l i m there
    ]

refuse_request-AllSound : (r : ℕ) (s : Server) → AllSound s → AllSound (refuse_request r s)
unfolding refuse_request AllSound
refuse_request-AllSound r s l = l

process_request-AllSound :
    (r : ℕ) (taken : Bool) (i : ℕ) (s : Server)
    → can_process r taken (get_elem? s.all i) ≡ true
    → AllSound s
    → AllSound (process_request r taken i s)
unfolding process_request can_process
process_request-AllSound r true i s c l = on_muxer-AllSound i (run_request r) s c l
process_request-AllSound r false i s c l = refuse_request-AllSound r s l

closed-AllSound : (i : ℕ) (s : Server) → AllSound s → AllSound (on_muxer i closed s)
unfolding can_come on_muxer AllSound
closed-AllSound i s l =
    modify-keeps (λ j m. Sound m) s.all i (muxer_step closed)
      (λ m h k. muxer_step-Sound closed m refl k) l

-- The map does not count.
with_muxers :
    (s : Server) (muxers : List (String × ℕ)) → AllSound s → AllSound (record s { muxers = muxers })
unfolding AllSound
with_muxers s muxers l = l

source_not_ready-AllSound :
    (name : String) (s : Server) → AllSound s → AllSound (handle_source_not_ready name s)
unfolding handle_source_not_ready
source_not_ready-AllSound name s l = elim (Option-cases (lookup name s.muxers)) [
  | inl e ↦ rw (e, handle_source_not_ready) l
  | inr (i, e) ↦
      rw (e, handle_source_not_ready)
        (with_muxers (on_muxer i closed s) (delete name s.muxers) (closed-AllSound i s l))
]

pub looks_up_new :
    (r : ℕ) (ms : List Muxer) (new : Muxer)
    → is_looping new.phase ≡ true
    → comes_to (run_request r) (get_elem? (ms ++ (new ∷ [])) (length ms)) ≡ true
unfolding comes_to can_come
looks_up_new r ms new h =
    subst (λ o. comes_to (run_request r) o ≡ true)
      (sym (
        get_elem?-append ms new (length ms)
        ∙ ap (λ b. if b then some new else get_elem? ms (length ms)) (==_refl (length ms))))
      h

created-AllSound :
    (r : ℕ) (name : String) (taken : Bool) (s : Server)
    → AllSound s
    → AllSound (process_request r taken (length s.all) (create_muxer name true s))
unfolding can_process process_request create_muxer new_muxer is_looping
created-AllSound r name true s l =
    process_request-AllSound r true (length s.all) (create_muxer name true s)
      (looks_up_new r s.all (new_muxer name s.always_remux true) refl)
      (create_muxer-AllSound name true s l)
created-AllSound r name false s l =
    refuse_request-AllSound r (create_muxer name true s) (create_muxer-AllSound name true s l)

request-AllSound :
    (r : ℕ) (name : String) (taken : Bool) (s : Server)
    → can_request r taken (lookup name s.muxers) s ≡ true
    → AllSound s
    → AllSound (handle_request r name taken s)
unfolding handle_request can_request
request-AllSound r name taken s c l = elim (Option-cases (lookup name s.muxers)) [
  | inl e ↦
      rw (e, handle_request)
        (if_keeps AllSound s.always_remux _ _ (λ remux. refuse_request-AllSound r s l)
          (λ on_demand. created-AllSound r name taken s l))
  | inr (i, e) ↦
      rw (e, handle_request)
        (process_request-AllSound r taken i s (subst (λ o. can_request r taken o s ≡ true) e c) l)
]

muxer_close-AllSound :
    (i : ℕ) (s : Server)
    → comes_to run_destroyed (get_elem? s.all i) ≡ true
    → AllSound s
    → AllSound (handle_muxer_close i s)
unfolding handle_muxer_close
muxer_close-AllSound i s c l = elim (Option-cases (get_elem? s.all i)) [
  | inl e ↦ rw (e, handle_muxer_close) l
  | inr (m, e) ↦
      let q = on_muxer-AllSound i run_destroyed s c l in
      rw (e, handle_muxer_close)
        (if_keeps AllSound (s.running && is_place (lookup m.path_name s.muxers) i) _ _
          (λ there. with_muxers (on_muxer i run_destroyed s) (delete m.path_name s.muxers) q)
          (λ other. q))
]

get_elem?-close_all :
    (ms : List Muxer) (i : ℕ) (m : Muxer)
    → get_elem? (close_all ms) i ≡ some m
    → (old : Muxer) × (get_elem? ms i ≡ some old) × (muxer_step closed old ≡ m)
unfolding get_elem? close_all
get_elem?-close_all [] i m h = cc h
get_elem?-close_all (x ∷ xs) zero m h = (x, refl, cc h)
get_elem?-close_all (x ∷ xs) (suc i) m h = get_elem?-close_all xs i m h

server_ctx_done-AllSound :
    (s : Server) → AllSound s → AllSound (record s { all = close_all s.all; running = false })
unfolding can_come AllSound
server_ctx_done-AllSound s l i m h =
    let (old, there, now) = get_elem?-close_all s.all i m h in
    subst Sound now (muxer_step-Sound closed old refl (l i old there))

pub server_step-AllSound :
    (e : ServerEvent) (s : Server) → server_can e s ≡ true → AllSound s → AllSound (server_step e s)
unfolding server_step server_can
server_step-AllSound (source_ready name) s c l =
    if_keeps AllSound s.always_remux _ _ (λ remux. create_muxer-AllSound name false s l)
      (λ on_demand. l)
server_step-AllSound (source_not_ready name) s c l =
    if_keeps AllSound s.always_remux _ _ (λ remux. source_not_ready-AllSound name s l)
      (λ on_demand. l)
server_step-AllSound (request r name taken) s c l =
    request-AllSound r name taken s (ground (arith, c)) l
server_step-AllSound (muxer_close i) s c l = muxer_close-AllSound i s c l
server_step-AllSound server_ctx_done s c l = server_ctx_done-AllSound s l
server_step-AllSound (muxer_event i e) s c l = on_muxer-AllSound i e s (ground (arith, c)) l

pub server_run-AllSound :
    (es : List ServerEvent) (s : Server)
    → all_can es s ≡ true
    → AllSound s
    → AllSound (server_run es s)
unfolding server_run all_can
server_run-AllSound [] s c l = l
server_run-AllSound (e ∷ es) s c l =
    server_run-AllSound es (server_step e s) (ground (arith, c))
      (server_step-AllSound e s (ground (arith, c)) l)

pub new_server-AllSound : (b : Bool) → AllSound (new_server b)
unfolding new_server get_elem? AllSound
new_server-AllSound b = λ i m h. cc h
