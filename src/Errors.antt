-- ===== src/Errors.antt =====
-- inc/litemqtt/error.hpp: the error codes, with their numbers and texts.
mod Tests
use Prim.Native.Char.{code}
use Prim.Native.String.{String}
use lite_mqtt.Prelude.{
  ℕ, ◌≡◌, refl, Bool, true, false, ◌&&◌, ◌==◌, Option, none, some, List, [], ◌∷◌, if◌then◌else◌,
}

pub data ErrorCode : Type 0 where
  success invalid_packet invalid_packet_type buffer_overflow : ErrorCode
  invalid_remaining_length invalid_mqtt_protocol network_error connection_refused : ErrorCode
  keepalive_timeout operation_in_progress not_connected unknown : ErrorCode

unfoldable pub to_int : ErrorCode → ℕ
to_int success = 0
to_int invalid_packet = 1
to_int invalid_packet_type = 2
to_int buffer_overflow = 3
to_int invalid_remaining_length = 4
to_int invalid_mqtt_protocol = 5
to_int network_error = 6
to_int connection_refused = 7
to_int keepalive_timeout = 8
to_int operation_in_progress = 9
to_int not_connected = 10
to_int unknown = 255

abbrev codes : String → List ℕ
codes String.[] = []
codes (String.◌∷◌ c s) = code c ∷ codes s

unfoldable pub to_string : ErrorCode → List ℕ
to_string success = codes "success"
to_string invalid_packet = codes "invalid packet"
to_string invalid_packet_type = codes "invalid packet type"
to_string buffer_overflow = codes "buffer overflow"
to_string invalid_remaining_length = codes "invalid remaining length"
to_string invalid_mqtt_protocol = codes "invalid MQTT protocol"
to_string network_error = codes "network error"
to_string connection_refused = codes "connection refused"
to_string keepalive_timeout = codes "keepalive timeout"
to_string operation_in_progress = codes "operation in progress"
to_string not_connected = codes "not connected"
to_string unknown = codes "unknown error"

abbrev pub all_codes : List ErrorCode
all_codes =
    success ∷ invalid_packet ∷ invalid_packet_type ∷ buffer_overflow ∷ invalid_remaining_length
    ∷ invalid_mqtt_protocol ∷ network_error ∷ connection_refused ∷ keepalive_timeout
    ∷ operation_in_progress ∷ not_connected ∷ unknown ∷ []

abbrev pub same_text : List ℕ → List ℕ → Bool
same_text [] [] = true
same_text [] (y ∷ ys) = false
same_text (x ∷ xs) [] = false
same_text (x ∷ xs) (y ∷ ys) = x == y && same_text xs ys

-- The first element that a test accepts.
abbrev pub first : {A : Type 0} → (A → Bool) → List A → Option A
first p [] = none
first p (x ∷ xs) = if p x then some x else first p xs

-- Each error code is told from all others by its number and by its text: the first code with its
-- number is the code itself, and so is the first with its text.
pub first-to_int-to_string :
    (e : ErrorCode)
    → (first (λ c. to_int c == to_int e) all_codes ≡ some e)
      × (first (λ c. same_text (to_string c) (to_string e)) all_codes ≡ some e)
unfolding to_int to_string
first-to_int-to_string success = (refl, refl)
first-to_int-to_string invalid_packet = (refl, refl)
first-to_int-to_string invalid_packet_type = (refl, refl)
first-to_int-to_string buffer_overflow = (refl, refl)
first-to_int-to_string invalid_remaining_length = (refl, refl)
first-to_int-to_string invalid_mqtt_protocol = (refl, refl)
first-to_int-to_string network_error = (refl, refl)
first-to_int-to_string connection_refused = (refl, refl)
first-to_int-to_string keepalive_timeout = (refl, refl)
first-to_int-to_string operation_in_progress = (refl, refl)
first-to_int-to_string not_connected = (refl, refl)
first-to_int-to_string unknown = (refl, refl)
