-- ===== src/Service/Message/Tests.antt =====
-- A codec that keeps packets as they are, and what is sent with it.
use editor_sh.Prelude.{some, ◌≡◌, refl, List, [], ◌∷◌, map, foldl, if◌then◌else◌}
use editor_sh.Service.Message.{
  Packet, Codec, Content, MsgCmd, run_code, delivered, dropped, send, create_message_adaptor,
}
use editor_sh.Service.Message.Registry.{no_listeners, adaptor}
use editor_sh.Service.Message.Calls.{
  Registration, add, remove, register, count, left_of, foldl-register,
}
use editor_sh.Service.Message.Sending.{IsLossless, is_for, create_message_adaptor-send}

abbrev keeping : Codec Content (Packet Content) (Packet Content)
keeping = record {
  stringify = λ p. p;
  parse = λ p. some p;
  size = λ p. 200;
  gzip = λ p. p;
  ungzip = λ p. some p;
}

keeping-IsLossless : IsLossless keeping
keeping-IsLossless = record { parse_stringify = λ p. refl; ungzip_gzip = λ s. refl }

create_message_adaptor-send_example :
    create_message_adaptor keeping
      (some MsgCmd.command)
      (λ p. p.content)
      (send keeping (run_code "print 1"))
    ≡ (if is_for (some MsgCmd.command) (run_code "print 1")
        then delivered (run_code "print 1")
        else dropped)
create_message_adaptor-send_example =
    create_message_adaptor-send keeping (some MsgCmd.command) (λ p. p.content) (run_code "print 1")
      keeping-IsLossless

abbrev registrations : List Registration
registrations = add 7 ∷ add 8 ∷ add 7 ∷ remove 7 ∷ remove 9 ∷ []

foldl-register_example :
    ((foldl register no_listeners registrations).socket_listeners
      ≡ map adaptor (foldl register no_listeners registrations).message_listeners)
    × (count 7 (foldl register no_listeners registrations).message_listeners
        ≡ left_of 7 0 registrations)
foldl-register_example = foldl-register registrations 7
