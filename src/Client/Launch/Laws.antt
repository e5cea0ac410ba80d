-- ===== src/Client/Launch/Laws.antt =====
-- What `gs_start_app` promises, and what its callers must not take for granted.
use moonlight_wii.Prelude.{
  ◌<◌, ◌≡◌, refl, ◌⊎◌, inl, inr, true, false, ◌&&◌, none, List, [], ◌∷◌, arith, Bool-cases, ◌==◌,
  ◌&&◌,
}
use mathlib.Core.List.{Memᴰ}
use moonlight_wii.Prelude.Int.{ℤ, pos}
use moonlight_wii.Errors.{gs_ok, is_ok}
use moonlight_wii.Xml.{Document, xml_status}
use moonlight_wii.Xml.Lists.{DisplayMode}
use moonlight_wii.Client.{Server, Client, http_request, gs_set_timeout}
use moonlight_wii.Client.Launch.{
  StreamConfig, LaunchInput, Launch, correct_mode, launch_reply, request_launch, gs_start_app,
}

-- The stream that is asked for, among the host's modes.
abbrev pub Offered : List DisplayMode → StreamConfig → Type 0
Offered modes cfg =
    Memᴰ (record { width = cfg.width; height = cfg.height; refresh = cfg.fps }) modes

launch_reply-bad : (d : Document) → is_ok (xml_status d) ≡ false → launch_reply d ≡ (pos 1, none)
unfolding launch_reply
launch_reply-bad d bad = rw bad refl

-- A host that answers the launch request with a bad status makes the request return 1, which is no
-- code of errors.h and no negative number, and the application counts as running.
pub request_launch-refused :
    (i : LaunchInput) (l : Launch) (s : Server) (cfg : StreamConfig) (c : Client) (d : Document)
    (rest : List (ℤ × Document))
    → c.replies ≡ (gs_ok, d) ∷ rest
    → is_ok (xml_status d) ≡ false
    → let r = request_launch i l s cfg c in
      (r.code ≡ pos 1) × (r.server ≡ record s { current_game = l.app_id })
unfolding request_launch http_request gs_set_timeout
request_launch-refused i l s cfg c d rest h bad = rw (h, launch_reply-bad d bad) (refl, refl)

correct_mode→Offered :
    (modes : List DisplayMode) (cfg : StreamConfig)
    → correct_mode modes cfg ≡ true
    → Offered modes cfg
unfolding correct_mode
correct_mode→Offered [] cfg h = cc
correct_mode→Offered (m ∷ ms) cfg h =
    elim (Bool-cases (m.width == cfg.width && m.height == cfg.height && m.refresh == cfg.fps)) [
      | inl e ↦ Memᴰ.head (ground arith)
      | inr e ↦ Memᴰ.tail (correct_mode→Offered ms cfg (ground arith))
    ]

-- `gs_start_app` gets as far as success only with a mode that the host offers, or where the
-- configuration lifts that test; and with 4K only on a host that supports it.
pub gs_start_app-mode :
    (i : LaunchInput) (l : Launch) (s : Server) (cfg : StreamConfig) (c : Client)
    → is_ok (gs_start_app i l s cfg c).code ≡ true
    → (Offered s.modes cfg ⊎ (s.unsupported ≡ true))
      × ((cfg.height < 2160) ⊎ (s.supports_4k ≡ true))
unfolding gs_start_app
gs_start_app-mode i l s cfg c h = ground (arith, correct_mode→Offered s.modes cfg)
