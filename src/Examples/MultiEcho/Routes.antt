-- ===== src/Examples/MultiEcho/Routes.antt =====
-- Which session of the echo server a connection ends with.
use splitsen.Base.{if◌then◌else◌, Bool-cases, inl, inr, ◌≡◌, refl}
use splitsen.Tcp.Strings.{over_socket, async_read_string, handshake}
use splitsen.Handshake.{HandShakeData}
use splitsen.Protocol.Chain.{refused, Taken, taken, dropped, on_handshake_fail}
use splitsen.Serialization.{async_read}
use splitsen.Examples.TcpSession.{my_tcp_session, guid}
use splitsen.Examples.MultiEcho.{
  serialization_guid, has_guid, KeptBy, World, in_tcp, in_serialization, new_serialization_session,
  do_next_handshake,
}

module _ {Msg : Type 0} (world : World Msg) where
  -- Where data goes that only a GUID decides.
  abbrev pub by_guid : HandShakeData → Taken (KeptBy Msg)
  by_guid d =
      if has_guid serialization_guid d
      then taken 1 (in_serialization (async_read world.save world.load new_serialization_session))
      else if has_guid guid d
      then taken 0 (in_tcp (record over_socket { reads = 1 }))
      else dropped d

  -- The last two protocols of the chain.
  pub last_two : (d : HandShakeData) → on_handshake_fail (do_next_handshake world) 2 d ≡ by_guid d
  unfolding on_handshake_fail do_next_handshake my_tcp_session handshake async_read_string
  last_two d = elim (Bool-cases (has_guid serialization_guid d)) [
    | inl s ↦ rw s refl
    | inr s ↦ rw s (elim (Bool-cases (has_guid guid d)) [ inl t ↦ rw t refl | inr t ↦ rw t refl ])
  ]

  -- http_session refuses what is not its own, and my_log_session what is no request.
  pub refused_twice :
      (d : HandShakeData)
      → do_next_handshake world 3 d ≡ refused d
      → do_next_handshake world 2 d ≡ refused d
      → on_handshake_fail (do_next_handshake world) 4 d ≡ by_guid d
  unfolding on_handshake_fail
  refused_twice d e f = rw (e, f) (last_two d)
