-- ===== src/HttpApi/Burn.antt =====
-- internal/httpapi/burn.go. A time.Duration is an int64 of nanoseconds, so a large number of
-- milliseconds wraps around. The body of the answer is left out but for the number of iterations.
pub mod Bounds
use experiment_go.Prelude.{ℕ, zero, suc, ◌*◌, String, Option, none, some, [], ◌∷◌, if◌then◌else◌}
use experiment_go.Prelude.Int.{ℤ, pos, ltb_ℤ, ◌+ℤ◌, ◌*ℤ◌, wrap64}
use experiment_go.Prelude.Text.{parse_int}
use experiment_go.Prelude.Errors.{lit}
use experiment_go.HttpApi.Response.{Response, respond_error, respond_data}

-- maxBurnDuration = 2 * time.Second
abbrev pub max_burn_duration : ℤ
max_burn_duration = pos 2_000_000_000

-- time.Duration(ms) * time.Millisecond, and the cap
unfoldable pub burn_duration : ℤ → ℤ
burn_duration ms =
    let d = wrap64 (ms *ℤ pos 1_000_000) in
    if ltb_ℤ max_burn_duration d then max_burn_duration else d

-- The loop of spin: the rounds of 1000 iterations until the clock is after the deadline. `clock k`
-- is the time that the round with the number `k` reads.
unfoldable pub spin_rounds : ℕ → (ℕ → ℤ) → ℤ → ℕ → Option ℕ
spin_rounds zero clock deadline k = none
spin_rounds (suc fuel) clock deadline k =
    let rest = spin_rounds fuel clock deadline (suc k) in
    if ltb_ℤ deadline (clock k) then some (suc k) else rest

abbrev iterations : Option ℕ → Option ℤ
iterations none = none
iterations (some rounds) = some (wrap64 (pos (1000 * rounds)))

-- spin, from the time `now`: `none` is too little fuel.
unfoldable pub spin : ℕ → (ℕ → ℤ) → ℤ → ℤ → Option ℤ
unfolding spin_rounds
spin fuel clock now d = iterations (spin_rounds fuel clock (now +ℤ d) 0)

abbrev burned : Option ℤ → Option (Response ℤ)
burned none = none
burned (some n) = some (respond_data 200 n)

abbrev on_ms : ℕ → (ℕ → ℤ) → ℤ → Option ℤ → Option (Response ℤ)
on_ms fuel clock now none = some (respond_error 400 (lit "ms must be a non-negative integer" ∷ []))
on_ms fuel clock now (some ms) =
    let answer = burned (spin fuel clock now (burn_duration ms)) in
    if ltb_ℤ ms (pos 0)
    then some (respond_error 400 (lit "ms must be a non-negative integer" ∷ []))
    else answer

-- burnHandler.burn, on the value of the query parameter ms, which is 50 by default.
unfoldable pub burn : ℕ → (ℕ → ℤ) → ℤ → Option String → Option (Response ℤ)
unfolding burn_duration spin
burn fuel clock now none = on_ms fuel clock now (parse_int "50")
burn fuel clock now (some text) = on_ms fuel clock now (parse_int text)
