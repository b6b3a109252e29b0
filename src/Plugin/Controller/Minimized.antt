-- ===== src/Plugin/Controller/Minimized.antt =====
-- Which players are taken to be minimized.
use playgroundjs_plugin.Common.{
  List, ℕ, All, ◌∷◌, ◌≡◌, Bool, ◌≤◌, true, [], not, find_id_nil, ◌+◌, arith, ◌==◌, ◌||◌,
  find_id-put, refl, leb, ◌&&◌, ap, find_id, none, some, ◌-◌, ◌∙◌,
}
use playgroundjs_plugin.Plugin.Controller.{
  PluginController, is_player_minimized, on_player_update, idle_threshold_ms,
}

-- The controller after these updates of players, the latest of which is the first of the list.
abbrev pub updated : List (ℕ × ℕ) → PluginController → PluginController
updated [] p = p
updated (u ∷ earlier) p = on_player_update u.0 u.1 (updated earlier p)

-- None of the updates came before one that is behind it in the list.
abbrev pub IsOrdered : List (ℕ × ℕ) → Type 0
IsOrdered [] = Unit
IsOrdered (u ∷ earlier) = All (λ e. e.1 ≤ u.1) earlier × IsOrdered earlier

-- No update of the player is less than a second old.
abbrev pub is_idle : ℕ → ℕ → List (ℕ × ℕ) → Bool
is_idle player_id now [] = true
is_idle player_id now (u ∷ earlier) =
    (not (u.0 == player_id) || leb (u.1 + idle_threshold_ms) now) && is_idle player_id now earlier

idle_earlier :
    (player_id now time : ℕ) (updates : List (ℕ × ℕ))
    → All (λ e. e.1 ≤ time) updates
    → time + idle_threshold_ms ≤ now
    → is_idle player_id now updates ≡ true
idle_earlier player_id now time [] h late = refl
idle_earlier player_id now time (u ∷ earlier) h late =
    ground (arith, h.0, idle_earlier player_id now time earlier h.1 late)

-- After updates of players in the order of their times, a player is minimized exactly if none of
-- the updates of this player is less than 1000 milliseconds old, also if there was none.
pub is_player_minimized-idle :
    (player_id now : ℕ) (updates : List (ℕ × ℕ)) (p : PluginController)
    → p.player_update_time ≡ []
    → IsOrdered updates
    → is_player_minimized player_id now (updated updates p) ≡ is_idle player_id now updates
unfolding is_player_minimized on_player_update
is_player_minimized-idle player_id now [] p none_yet h =
    ap
      (λ m. elim (find_id player_id m) [
        | none ↦ true
        | some last_update ↦ leb idle_threshold_ms (now - last_update)
      ])
      none_yet
    ∙ rw (find_id_nil player_id) refl
is_player_minimized-idle player_id now (u ∷ earlier) p none_yet h = ground (
  arith,
  find_id-put player_id u.0 u.1 (updated earlier p).player_update_time,
  is_player_minimized-idle player_id now earlier p none_yet h.1,
  idle_earlier player_id now u.1 earlier h.0,
)
