-- ===== src/Proxy/SocketIo.antt =====
-- proxy_server/tcp/SocketIO.cc. What the kernel answers is an argument.
pub mod Reading
pub mod Writing
use micro_business_server.Base.{
  ℕ, zero, suc, ◌+◌, ◌-◌, Bool, true, false, List, [], ◌∷◌, ◌++◌, Option, none, some, ◌==◌,
  if◌then◌else◌, length, take, drop,
}
use micro_business_server.Base.Text.{Bytes}

-- The answers of `recv` up to the first that ends the loop: EAGAIN or EWOULDBLOCK, another error,
-- end of stream, or some bytes and then more answers.
pub data Incoming : Type 0 where
  again failed closed : Incoming
  chunk : Bytes → Incoming → Incoming

-- `buf += temp` reads `temp` as a C string: it stops at the first zero byte.
unfoldable pub c_string : Bytes → Bytes
c_string [] = []
c_string (c ∷ s) = if c == 0 then [] else c ∷ c_string s

-- The buffer after the loop, and the result.
unfoldable pub readn : Incoming → Bytes → Bytes × Bool
readn again buf = (buf, true)
readn failed buf = (buf, false)
readn closed buf = (buf, false)
readn (chunk temp rest) buf = readn rest (buf ++ c_string temp)

-- The answers of `write`: a count, EINTR, another error.
pub data Written : Type 0 where
  wrote : ℕ → Written
  interrupted : Written
  broken : Written

-- The bytes that the kernel took, and the result. `none`: the answers end and the loop does not.
unfoldable pub writen_loop : List Written → Bytes → ℕ → ℕ → Option (Bytes × ℕ)
writen_loop answers p len zero = some ([], len)
writen_loop [] p len (suc left) = none
writen_loop (interrupted ∷ answers) p len (suc left) = writen_loop answers p len (suc left)
writen_loop (broken ∷ answers) p len (suc left) = some ([], len - suc left)
writen_loop (wrote ret ∷ answers) p len (suc left) =
    elim (writen_loop answers (drop ret p) len (suc left - ret)) [
      | none ↦ none
      | some (out, result) ↦ some (take ret p ++ out, result)
    ]

unfoldable pub writen : List Written → Bytes → Option (Bytes × ℕ)
writen answers buff = writen_loop answers buff (length buff) (length buff)
