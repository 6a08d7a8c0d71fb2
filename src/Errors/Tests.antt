-- ===== src/Errors/Tests.antt =====
-- An error code at a concrete input.
use lite_mqtt.Prelude.{◌≡◌, ◌==◌, some}
use lite_mqtt.Errors.{
  keepalive_timeout, to_int, to_string, all_codes, same_text, first, first-to_int-to_string,
}

first-to_int-to_string_example :
    (first (λ c. to_int c == to_int keepalive_timeout) all_codes ≡ some keepalive_timeout)
    × (first (λ c. same_text (to_string c) (to_string keepalive_timeout)) all_codes
        ≡ some keepalive_timeout)
first-to_int-to_string_example = first-to_int-to_string keepalive_timeout
