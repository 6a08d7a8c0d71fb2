-- ===== src/Tools/Schedule.antt =====
-- tools/reconnect_stress.cc: build_schedule(), the link states of a run with their milliseconds.
use Prim.Native.String.{String}
use text.Mathlib.Text.{◌==◌}
use lite_mqtt.Prelude.{ℕ, zero, suc, List, [], ◌∷◌, ◌++◌, if◌then◌else◌}
use lite_mqtt.Tools.Links.{LinkState, up, down, blackhole, flap, slow}

-- The rounds of a for loop.
abbrev rounds : {A : Type 0} → ℕ → List A → List A
rounds zero step = []
rounds (suc n) step = step ++ rounds n step

pub build_schedule : String → List (LinkState × ℕ)
build_schedule name =
    if name == "flap"
    then rounds 120 ((up, 500) ∷ (down, 500) ∷ [])
    else if name == "long"
    then rounds 12 ((up, 10000) ∷ (down, 15000) ∷ [])
    else if name == "blackhole"
    then rounds 120 ((blackhole, 2000) ∷ (up, 2000) ∷ [])
    else if name == "weak"
    then rounds 120 ((slow, 3000) ∷ (down, 700) ∷ (up, 1300) ∷ [])
    else rounds 200 (
        (up, 4000)
        ∷ (down, 3000)
        ∷ (up, 2000)
        ∷ (flap, 2000)
        ∷ (up, 2000)
        ∷ (blackhole, 3000)
        ∷ (up, 2000)
        ∷ (slow, 3000)
        ∷ [])
