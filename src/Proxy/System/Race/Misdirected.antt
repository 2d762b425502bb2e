-- ===== src/Proxy/System/Race/Misdirected.antt =====
-- The calls one after the other, and in between each other.
use micro_business_server.Base.{[], none, some, ◌≡◌, refl, ◌∙◌}
use micro_business_server.Base.Int.{ℤ, int_eq_iff}
use micro_business_server.Base.Map.{find, erase, text_key, int_key, find-erase, find-insert}
use micro_business_server.Base.Text.{Bytes}
use micro_business_server.Proxy.EventLoop.{
  EventLoop, Accepted, client_end, handle_new_connection, with_tables,
}
use micro_business_server.Proxy.System.Race.{
  looking, reading, dropped, crashed, writing, written, staying, unlisted, left, reply_step,
  leave_step, Racing, RaceSteps, replies, leaves, accepts, stay, next,
}
use micro_business_server.Proxy.TcpConnection.Reply.{address}
use micro_business_server.Proxy.TcpConnection.{Endpoint, Tables, Platform, forget_client}

module _ (name : Bytes) (t : Tables) where
  looked :
      (fd : ℤ) → find name t.client_table ≡ some fd → reply_step name (looking, t) ≡ (reading, t)
  unfolding reply_step
  looked fd known = rw (reply_step, known) refl

  looked_nowhere : find name t.client_table ≡ none → reply_step name (looking, t) ≡ (dropped, t)
  unfolding reply_step
  looked_nowhere gone = rw (reply_step, gone) refl

  read :
      (fd : ℤ) → find name t.client_table ≡ some fd → reply_step name (reading, t) ≡ (writing fd, t)
  unfolding reply_step
  read fd known = rw (reply_step, known) refl

  wrote :
      (fd : ℤ) (x : Endpoint)
      → find fd t.client_conns ≡ some x
      → reply_step name (writing fd, t) ≡ (written x.sock_fd, t)
  unfolding reply_step
  wrote fd x there = rw (reply_step, there) refl

  wrote_nowhere :
      (fd : ℤ) → find fd t.client_conns ≡ none → reply_step name (writing fd, t) ≡ (crashed, t)
  unfolding reply_step
  wrote_nowhere fd lost = rw (reply_step, lost) refl

module _ (platform : Platform) (e : Endpoint) (l : EventLoop) where
  -- The reply is about to be delivered, and the client's end has closed.
  abbrev pub both : Racing
  both = record { loop = l; reply = looking; client = staying }

  unlisted_loop : EventLoop
  unlisted_loop =
      with_tables l (record l.tables { client_conns = erase e.sock_fd l.tables.client_conns })

  -- The reply is read out of the table before the client is taken out of it.
  half :
      find (address platform e) l.tables.client_table ≡ some e.sock_fd
      → RaceSteps platform
          (address platform e)
          e
          both
          (record { loop = unlisted_loop; reply = writing e.sock_fd; client = unlisted })
  unfolding leave_step unlisted_loop
  half known =
      next
        (next
          (next stay
            (replies reading l.tables (looked (address platform e) l.tables e.sock_fd known) refl))
          (replies (writing e.sock_fd) l.tables (read (address platform e) l.tables e.sock_fd known)
            refl))
        (leaves unlisted _ refl refl)

  erased : find e.sock_fd unlisted_loop.tables.client_conns ≡ none
  unfolding unlisted_loop
  erased =
      find-erase e.sock_fd e.sock_fd l.tables.client_conns
      ∙ rw ((int_eq_iff e.sock_fd e.sock_fd).1 refl) refl

  -- Let a client's address lead to its descriptor, and let one worker deliver a reply that names it
  -- while another takes it out of the tables. There is an order of their calls in which the first,
  -- which has read the descriptor, finds no connection there and dereferences a null pointer.
  pub reply_crashes :
      find (address platform e) l.tables.client_table ≡ some e.sock_fd
      → (u : Racing) × RaceSteps platform (address platform e) e both u × (u.reply ≡ crashed)
  reply_crashes known = (
    _,
    next (half known) (
        replies crashed unlisted_loop.tables
          (wrote_nowhere (address platform e) unlisted_loop.tables e.sock_fd erased) refl),
    refl,
  )

  left_loop : EventLoop
  left_loop = with_tables l (
      forget_client platform (record { fixed = e; read_buf = []; path = []; business_code = [] })
        l.tables)

  -- The new client stands in the table under its descriptor.
  listed :
      (a : Accepted)
      → a.fd ≡ e.sock_fd
      → find e.sock_fd (handle_new_connection platform a left_loop).tables.client_conns
        ≡ some (client_end a)
  unfolding handle_new_connection left_loop unlisted_loop
  listed a same =
      find-insert a.fd e.sock_fd (client_end a) (erase e.sock_fd l.tables.client_conns)
        (rw same erased)
      ∙ rw ((int_eq_iff a.fd e.sock_fd).1 same) refl

  -- If in the same situation a new client comes and gets the descriptor, there is an order in which
  -- the reply that names the first client is written to that descriptor when the new client stands
  -- in the table of connections under it.
  pub reply_misdirected :
      (a : Accepted)
      → find (address platform e) l.tables.client_table ≡ some e.sock_fd
      → a.fd ≡ e.sock_fd
      → (u : Racing) × RaceSteps platform (address platform e) e both u
        × (u.reply ≡ written a.fd)
        × (find e.sock_fd u.loop.tables.client_conns ≡ some (client_end a))
  unfolding leave_step left_loop unlisted_loop
  reply_misdirected a known same =
      let last : EventLoop = handle_new_connection platform a left_loop in
      (
        record { loop = last; reply = written a.fd; client = left },
        next
            (next (next (half known) (leaves left left_loop.tables refl refl))
              (accepts a (rw same erased) refl refl))
            (replies (written a.fd) last.tables
              (wrote (address platform e) last.tables e.sock_fd (client_end a) (listed a same))
              refl),
        refl,
        listed a same,
      )
