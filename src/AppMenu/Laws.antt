-- ===== src/AppMenu/Laws.antt =====
-- src/main.c: how `do_stream` ends.
use moonlight_wii.Prelude.{
  ℕ, zero, suc, ◌+◌, ◌^◌, ◌≡◌, refl, ap, ◌∙◌, true, false, Option, none, some, List, [], ◌∷◌, arith,
  Bool-cases, inl, inr,
}
use native.Mathlib.Nat.{pow-suc}
use moonlight_wii.Prelude.Int.{ℤ, pos, negsuc}
use moonlight_wii.Prelude.Text.{Bytes, str_eq→≡}
use moonlight_wii.Errors.{is_ok, gs_ok}
use moonlight_wii.Xml.{Document, xml_status}
use moonlight_wii.Xml.Lists.{App}
use moonlight_wii.Client.{Server, Client}
use moonlight_wii.Client.Requests.{gs_applist}
use moonlight_wii.Client.Launch.{StreamConfig, Launch, Launched, request_launch}
use moonlight_wii.Client.Launch.Laws.{request_launch-refused}
use moonlight_wii.Config.{Configuration}
use moonlight_wii.AppMenu.{
  has_name, find_app_id, walk, choose_app, gamepad_mask, no_app, streamed, StreamInput, run_stream,
  start_stream, stream_from, do_stream,
}

walk_end : (n : ℕ) (list : List App) → walk 0 (suc n) list ≡ none
unfolding walk
walk_end n [] = refl
walk_end n (a ∷ list) = ground (arith, walk_end n list)

choose_app-other :
    (list : List App) (n : ℕ) (name : Bytes) → choose_app list (pos (suc n)) name ≡ negsuc 0
unfolding choose_app
choose_app-other list n name = rw (choose_app, walk_end n list) refl

start_stream-negative :
    (i : StreamInput) (config : Configuration) (cfg : StreamConfig) (n : ℕ) (s : Server)
    (c : Client)
    → start_stream i config cfg (negsuc n) s c ≡ record { result = no_app; server = s; client = c }
unfolding start_stream
start_stream-negative i config cfg n s c = refl

stream_from-other :
    (i : StreamInput) (config : Configuration) (cfg : StreamConfig) (s : Server) (c : Client)
    (a : App) (list : List App) (n : ℕ)
    → i.sel ≡ pos (suc n)
    → i.want_main_menu ≡ false
    → stream_from i config cfg s ((gs_ok, some (a ∷ list)), c)
      ≡ record { result = no_app; server = s; client = c }
unfolding stream_from
stream_from-other i config cfg s c a list n sel stay =
    rw (stream_from, stay, sel, choose_app-other (a ∷ list) n config.app)
      (start_stream-negative i config cfg 0 s c)

-- Once the host has sent a list, choosing any application but the first one fails: none is found, and
-- nothing is launched.
pub do_stream-other :
    (i : StreamInput) (config : Configuration) (cfg : StreamConfig) (s : Server) (c c' : Client)
    (a : App) (list : List App) (n : ℕ)
    → gs_applist s c ≡ ((gs_ok, some (a ∷ list)), c')
    → i.sel ≡ pos (suc n)
    → i.want_main_menu ≡ false
    → do_stream i config cfg s c ≡ record { result = no_app; server = s; client = c' }
unfolding do_stream
do_stream-other i config cfg s c c' a list n sent sel stay =
    ap (stream_from i config cfg s) sent ∙ stream_from-other i config cfg s c' a list n sel stay

-- The first application that has the name.
pub data IsFirst (name : Bytes) : List App → ℤ → Type 0 where
  here : (a : App) (list : List App) → a.name ≡ some name → IsFirst name (a ∷ list) a.id
  later :
      (a : App) (list : List App) (id : ℤ)
      → has_name name a.name ≡ false
      → IsFirst name list id
      → IsFirst name (a ∷ list) id
  nowhere : IsFirst name [] (negsuc 0)

has_name→≡ : (name : Bytes) (o : Option Bytes) → has_name name o ≡ true → o ≡ some name
has_name→≡ name none h = cc
has_name→≡ name (some s) h = ap (λ t. some t) (str_eq→≡ s name h)

-- The name that is configured stands for the first application of that name, or for -1.
pub find_app_id-IsFirst :
    (list : List App) (name : Bytes) → IsFirst name list (find_app_id list name)
unfolding find_app_id
find_app_id-IsFirst [] name = nowhere
find_app_id-IsFirst (a ∷ list) name = elim (Bool-cases (has_name name a.name)) [
  | inl e ↦ rw (find_app_id, e) (here a list (has_name→≡ name a.name e))
  | inr e ↦ rw (find_app_id, e) (later a list _ e (find_app_id-IsFirst list name))
]

-- One bit for each controller.
pub gamepad_mask_pow : (n : ℕ) → gamepad_mask n + 1 ≡ 2 ^ n
unfolding gamepad_mask
gamepad_mask_pow zero = refl
gamepad_mask_pow (suc n) = omega (arith, gamepad_mask_pow n, pow-suc 2 n)

run_stream-one :
    (i : StreamInput) (config : Configuration) (l : Launched)
    → l.code ≡ pos 1
    → i.connects ≡ true
    → (run_stream i config l).result ≡ streamed
unfolding run_stream
run_stream-one i config l one up = elim (Bool-cases config.quitappafter) [
  | inl q ↦ rw (run_stream, one, up, q) refl
  | inr q ↦ rw (run_stream, one, up, q) refl
]

-- Where the host answers the launch request with a bad status, `do_stream` goes on to connect, and where
-- that succeeds, to stream.
pub run_stream-refused :
    (i : StreamInput) (config : Configuration) (l : Launch) (s : Server) (cfg : StreamConfig)
    (c : Client) (d : Document) (rest : List (ℤ × Document))
    → c.replies ≡ (gs_ok, d) ∷ rest
    → is_ok (xml_status d) ≡ false
    → i.connects ≡ true
    → (run_stream i config (request_launch i.launch l s cfg c)).result ≡ streamed
run_stream-refused i config l s cfg c d rest sent bad up =
    run_stream-one i config (request_launch i.launch l s cfg c)
      (request_launch-refused i.launch l s cfg c d rest sent bad).0 up
