-- ===== src/Proxy/SocketIo/Reading.antt =====
-- What `readn` leaves in the buffer.
use micro_business_server.Base.{Bool, true, false, [], ◌++◌, ◌≡◌, ◌∙◌, append-nil, append_assoc}
use micro_business_server.Base.Text.{Bytes}
use micro_business_server.Proxy.SocketIo.{Incoming, again, failed, closed, chunk, c_string, readn}

-- The bytes that come in, up to the first zero byte of each chunk.
abbrev pub received : Incoming → Bytes
received again = []
received failed = []
received closed = []
received (chunk temp rest) = c_string temp ++ received rest

-- The other end has neither closed nor failed.
abbrev pub stays_open : Incoming → Bool
stays_open again = true
stays_open failed = false
stays_open closed = false
stays_open (chunk temp rest) = stays_open rest

pub readn_lem : (i : Incoming) (buf : Bytes) → readn i buf ≡ (buf ++ received i, stays_open i)
unfolding readn
readn_lem again buf = rw append-nil
readn_lem failed buf = rw append-nil
readn_lem closed buf = rw append-nil
readn_lem (chunk temp rest) buf = readn_lem rest (buf ++ c_string temp) ∙ rw append_assoc
