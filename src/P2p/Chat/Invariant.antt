-- ===== src/P2p/Chat/Invariant.antt =====
-- What every run of the chat keeps, for P2p.Chat.Run.
use mmn_tx_explorer.Base.{
  String, Bool, true, false, Option, none, some, List, [], ◌∷◌, refl, subst, arith, size-trim,
  Option-cases, inl, inr, if_either,
}
use mmn_tx_explorer.P2p.Chat.{Chat, Sending, can_send, begin_send, end_send}
use mmn_tx_explorer.P2p.Chat.Receive.{Parsed}
use mmn_tx_explorer.P2p.Chat.Run.{
  ChatEvent, submitted, sent, ChatRun, IsSelection, IsKept, is_out, IsChat, submit, finish, handle,
  chat_step, chat_run,
}
use mmn_tx_explorer.P2p.Chat.Tidy.{IsTidy, handle-IsTidy}

-- The part of the invariant that is about the state alone.
IsChat-IsTidy : (r : ChatRun) → IsChat r → IsTidy (is_out r.sending) r.chat
IsChat-IsTidy r h = record {
  selection = h.selection;
  input = h.input;
  messages = h.messages;
  mark = h.sending;
}

IsTidy-IsChat :
    (w : Option Sending) (c : Chat)
    → IsKept w
    → IsTidy (is_out w) c
    → IsChat (record { chat = c; sending = w })
IsTidy-IsChat w c k h = record {
  selection = h.selection;
  input = h.input;
  messages = h.messages;
  sending = h.mark;
  kept = k;
}

nothing-IsSelection : IsSelection [] []
nothing-IsSelection = record { paired = refl; small = tt }

submit-IsChat : (r : ChatRun) → IsChat r → IsChat (submit r)
unfolding submit begin_send
submit-IsChat r h =
    if_either IsChat (can_send r.chat)
      (record {
        selection = nothing-IsSelection;
        input = omega arith;
        messages = h.messages;
        sending = refl;
        kept = (h.selection, omega (arith, size-trim r.chat.input_value, h.input));
      })
      h

finish-IsChat : (delivered : Bool) (r : ChatRun) → IsChat r → IsChat (finish delivered r)
unfolding finish end_send
finish-IsChat delivered r h = elim (Option-cases r.sending) [
  | inl e ↦ rw (finish, e) h
  | inr (w, e) ↦ rw (finish, e) (ended delivered w (subst IsKept e h.kept))
]
  where
    ended :
        (ok : Bool) (w : Sending)
        → IsKept (some w)
        → IsChat (record { chat = end_send ok w r.chat; sending = none })
    ended true w k = record {
      selection = h.selection;
      input = h.input;
      messages = h.messages;
      sending = refl;
      kept = tt;
    }
    ended false w (chosen, short) = record {
      selection = chosen;
      input = short;
      messages = h.messages;
      sending = refl;
      kept = tt;
    }

module _ (json_parse : String → Option Parsed) (user : Option String) (seller_id : String) where
  chat_step-IsChat :
      (e : ChatEvent) (r : ChatRun) → IsChat r → IsChat (chat_step json_parse user seller_id e r)
  unfolding chat_step
  chat_step-IsChat submitted r h = submit-IsChat r h
  chat_step-IsChat (sent ok) r h = finish-IsChat ok r h
  chat_step-IsChat e r h =
      IsTidy-IsChat r.sending (handle json_parse user seller_id e r.chat) h.kept
        (handle-IsTidy (is_out r.sending) json_parse user seller_id e r.chat (IsChat-IsTidy r h))

  -- However the chat's events interleave, the files and the previews stay paired, no file is too large,
  -- the input is within its limit, no two messages have one id, a call of `handleSendMessage` is marked
  -- exactly while one is out, and what it keeps to restore is within the same bounds, where all that
  -- held at the start.
  pub chat_run-IsChat :
      (es : List ChatEvent) (r : ChatRun)
      → IsChat r
      → IsChat (chat_run json_parse user seller_id es r)
  unfolding chat_run
  chat_run-IsChat [] r h = h
  chat_run-IsChat (e ∷ es) r h =
      chat_run-IsChat es (chat_step json_parse user seller_id e r) (chat_step-IsChat e r h)
