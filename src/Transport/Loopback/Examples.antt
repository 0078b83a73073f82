-- ===== src/Transport/Loopback/Examples.antt =====
-- The loopback link at concrete calls, and the theorems at such calls.
use lado_flow.Base.{◌≡◌, refl, arith, true, List, [], ◌∷◌, ◌++◌, some, inl, inr, All}
use mathlib.Core.List.{Sublistᴰ}
use lado_flow.Transport.Packet.{control, media, control_packet, replaceable_media, Packet}
use lado_flow.Transport.Queue.{try_push, pop}
use lado_flow.Transport.Loopback.{
  default_config, first, second, Link, loopback_pair, Call, send, receive, disconnecting,
  reconnecting, replies, perform,
}
use lado_flow.Transport.Loopback.Spec.{no_wires, run}
use lado_flow.Transport.Loopback.Refine.{replies-run}
use lado_flow.Transport.Loopback.Accounts.{delivered, accepted, after, under_way, stays_up}
use lado_flow.Transport.Loopback.Order.{IsPlain, delivered-accepted, delivered-Sublist}

abbrev greeting : Packet
greeting = control_packet (1 ∷ 2 ∷ [])

abbrev answer : Packet
answer = control_packet (3 ∷ [])

-- Two frames of one stream.
abbrev old_frame : Packet
old_frame = replaceable_media 7 (4 ∷ 5 ∷ 6 ∷ [])

abbrev late_frame : Packet
late_frame = replaceable_media 7 (8 ∷ [])

abbrev calls : List Call
calls =
    send first greeting
    ∷ send first old_frame
    ∷ send second answer
    ∷ send first late_frame
    ∷ receive second control
    ∷ receive second media
    ∷ receive second media
    ∷ send first answer
    ∷ []

-- The calls, and the link taken down and up again.
abbrev all_calls : List Call
all_calls =
    calls ++ (disconnecting ∷ receive first control ∷ reconnecting ∷ receive first control ∷ [])

abbrev link : Link
link = loopback_pair default_config

media_is_superseded : delivered first media calls link ≡ late_frame ∷ []
unfolding delivered perform pop try_push
media_is_superseded = refl

control_is_kept : under_way first control (after calls link) ≡ answer ∷ []
unfolding after perform pop try_push
control_is_kept = refl

stays : All (λ k. stays_up k ≡ true) calls
stays = (refl, (refl, (refl, (refl, (refl, (refl, (refl, (refl, tt))))))))

plain : All IsPlain calls
plain = (inr refl, (inl refl, (inr refl, (inl refl, (tt, (tt, (tt, (inr refl, tt))))))))

replies-run_example : replies all_calls link ≡ run default_config all_calls (some no_wires)
replies-run_example = replies-run (record { control = omega arith; media = omega arith }) all_calls

delivered-accepted_example :
    delivered first control calls link ++ under_way first control (after calls link)
    ≡ under_way first control link ++ accepted first control calls link
delivered-accepted_example = delivered-accepted first calls link refl stays plain

delivered-Sublist_example :
    Sublistᴰ
      (delivered first media calls link ++ under_way first media (after calls link))
      (under_way first media link ++ accepted first media calls link)
delivered-Sublist_example = delivered-Sublist first calls link refl stays media
