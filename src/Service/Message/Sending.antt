-- ===== src/Service/Message/Sending.antt =====
-- What is sent to a room reaches the listeners that it is for.
use editor_sh.Prelude.{
  arith, Bool, true, false, Option, none, some, ◌≡◌, refl, inl, inr, Bool-cases, ltb, if◌then◌else◌,
}
use editor_sh.Service.Message.{
  Packet, Codec, Content, Tag, MsgCmd, terminal, editor, command, delivered, dropped, send_message,
  text_of, create_message_adaptor, get_msg_tag, hears_tag, tag_of, send, set_size, stdin, reset,
  run_code, set_lang, editor_sync,
}

-- The documented behaviour of JSON and of pako on packets: what is read back is what was written.
pub record IsLossless {A Text Bytes : Type 0} (codec : Codec A Text Bytes) : Type 0 where
  pub parse_stringify : (p : Packet A) → codec.parse (codec.stringify p) ≡ some p
  pub ungzip_gzip : (s : Text) → codec.ungzip (codec.gzip s) ≡ some s

-- The request is of the kind that a listener for `cmd` asked for.
abbrev pub is_for : Option MsgCmd → Content → Bool
is_for none content = true
is_for (some terminal) (set_size row col) = true
is_for (some terminal) (stdin text) = true
is_for (some command) reset = true
is_for (some command) (run_code code) = true
is_for (some command) (set_lang lang) = true
is_for (some editor) (editor_sync params) = true
is_for (some _) content = false

text_of-send_message :
    {A Text Bytes : Type 0} (codec : Codec A Text Bytes) (tag : Tag) (content : A)
    → IsLossless codec
    → text_of codec (send_message codec tag content)
      ≡ some (codec.stringify (record { tag = tag; content = content }))
unfolding send_message text_of
text_of-send_message codec tag content h =
    let payload = codec.stringify (record { tag = tag; content = content }) in
    elim (Bool-cases (ltb 128 (codec.size payload))) [
      | inl long ↦ rw long (h.ungzip_gzip payload)
      | inr short ↦ rw short refl
    ]

hears_tag-get_msg_tag :
    (cmd : Option MsgCmd) (content : Content)
    → hears_tag (get_msg_tag cmd) (tag_of content) ≡ is_for cmd content
unfolding get_msg_tag tag_of
hears_tag-get_msg_tag cmd content = ground arith

-- A request, compressed or not, is handed to the listener of a kind, converted from the packet with
-- its content, exactly if it is of that kind, and never breaks the adaptor.
pub create_message_adaptor-send :
    {B Text Bytes : Type 0} (codec : Codec Content Text Bytes) (cmd : Option MsgCmd)
    (convert : Packet Content → B) (content : Content)
    → IsLossless codec
    → create_message_adaptor codec cmd convert (send codec content) ≡ (
        if is_for cmd content
        then delivered (convert (record { tag = tag_of content; content = content }))
        else dropped)
unfolding create_message_adaptor send
create_message_adaptor-send codec cmd convert content h =
    rw
      (
        text_of-send_message codec (tag_of content) content h,
        h.parse_stringify (record { tag = tag_of content; content = content }),
        hears_tag-get_msg_tag cmd content,
      )
      refl
