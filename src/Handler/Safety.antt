-- ===== src/Handler/Safety.antt =====
-- A handler that accepts an event does not read outside its body.
use event_stream_core.Common.{
  ℕ, ◌≤◌, ◌<◌, ◌≡◌, ◌≢◌, true, none, [], ◌∷◌, arith, length, get_elem?, Bytes,
}
use event_stream_core.Event.{Event}
use event_stream_core.Handler.{
  EventHandler, nonempty_body, default_handler, with_first, temperature_rules, temperature_result,
  sensor_temperature_handler, pressure_result, sensor_pressure_handler, amount_of, payment_handler,
  audit_handler,
}

-- What `validate` accepts, `checkRules` and `handle` can read.
abbrev pub IsSafe : EventHandler → Type 0
IsSafe h =
    (e : Event) → (h.validate e).valid ≡ true → (h.check_rules e ≢ none) × (h.handle e ≢ none)

first_some {ℓ} :
    {A : Type ℓ} (body : Bytes) (f : ℕ → A)
    → 0 < length body
    → with_first (get_elem? body 0) f ≢ none
unfolding with_first
first_some [] f h = absurd (omega arith)
first_some (x ∷ body) f h = λ e. cc

amount_some {ℓ} :
    {A : Type ℓ} (body : Bytes) (f : ℕ → A) → 4 ≤ length body → with_first (amount_of body) f ≢ none
unfolding with_first
amount_some [] f h = absurd (omega arith)
amount_some (a ∷ []) f h = absurd (omega arith)
amount_some (a ∷ b ∷ []) f h = absurd (omega arith)
amount_some (a ∷ b ∷ c ∷ []) f h = absurd (omega arith)
amount_some (a ∷ b ∷ c ∷ d ∷ body) f h = λ e. cc

nonempty_valid : (msg : Bytes) (e : Event) → (nonempty_body msg e).valid ≡ true → 0 < length e.body
nonempty_valid msg e h = ground arith

long_valid : (e : Event) → (payment_handler.validate e).valid ≡ true → 4 ≤ length e.body
unfolding payment_handler
long_valid e h = ground arith

-- Every handler of the repository reads only inside the body of an event that it validated.
pub handlers_IsSafe :
    IsSafe default_handler
    × IsSafe sensor_temperature_handler
    × IsSafe sensor_pressure_handler
    × IsSafe payment_handler
    × IsSafe audit_handler
unfolding sensor_temperature_handler sensor_pressure_handler payment_handler audit_handler
handlers_IsSafe = (
  (λ e h. (λ x. cc, λ x. cc)),
  (λ e h. (
    first_some e.body temperature_rules (nonempty_valid _ e h),
    first_some e.body temperature_result (nonempty_valid _ e h),
  )),
  (λ e h. (λ x. cc, first_some e.body pressure_result (nonempty_valid _ e h))),
  (λ e h. (amount_some e.body _ (long_valid e h), amount_some e.body _ (long_valid e h))),
  (λ e h. (λ x. cc, λ x. cc)),
)
