-- ===== src/Connection/Asio.antt =====
-- What the connection sees of asio: error codes, and reads that fill a buffer.
use lite_mqtt.Prelude.{ℕ, ◌<◌, ◌≡◌, List, ◌++◌, length}

-- The error codes that the program names, and those that only asio produces.
pub data AsioError : Type 0 where
  operation_aborted bad_descriptor invalid_argument message_size : AsioError
  other : ℕ → AsioError

-- How an asio::async_read of n bytes completes: the bytes and the input that is left, or an error.
pub data ReadResult : Type 0 where
  filled : List ℕ → List ℕ → ReadResult
  failed : AsioError → ReadResult

-- The documented behaviour of asio::async_read on a stream that still carries `input` and then ends
-- with `ending`: it completes when the buffer is full, or with the error that comes first.
pub record FillsBuffer (async_read : ℕ → List ℕ → ReadResult) (ending : AsioError) : Type 0 where
  pub fills :
      (n : ℕ) (bytes input : List ℕ)
      → n ≡ length bytes
      → async_read n (bytes ++ input) ≡ filled bytes input
  pub ends : (n : ℕ) (input : List ℕ) → length input < n → async_read n input ≡ failed ending
