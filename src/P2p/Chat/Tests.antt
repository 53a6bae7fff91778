-- ===== src/P2p/Chat/Tests.antt =====
-- The theorems on the chat and its uploads at concrete inputs.
use mmn_tx_explorer.Base.{
  ℕ, zero, suc, ◌≤◌, String, Bool, true, false, Option, none, some, List, [], ◌∷◌, ◌≡◌, ◌≢◌, ◌⊎◌,
  refl, arith, length, trim, is_space,
}
use mmn_tx_explorer.Hooks.Transfer.{threw, answered}
use mmn_tx_explorer.P2p.Upload.{
  File, UploadResult, Network, is_accent, is_safe, normalize_filename, get_safe_file_type,
  upload_attachment_file, put_file, upload_result,
}
use mmn_tx_explorer.P2p.Chat.{Chat, can_send}
use mmn_tx_explorer.P2p.Chat.Deliver.{
  DirectMessage, handle_send_message, IsSent, handle_send_message-ends, handle_send_message-endless,
}
use mmn_tx_explorer.P2p.Chat.Receive.{Parsed, json_other, text_content, Incoming, accepts_message}
use mmn_tx_explorer.P2p.Chat.Run.{
  ChatEvent, received, typed, submitted, sent, ChatRun, IsChat, chat_run,
}
use mmn_tx_explorer.P2p.Chat.Invariant.{chat_run-IsChat}

-- The first attempt fails, all others succeed.
abbrev network : Network
network = record {
  decompose = λ s. s;
  to_lower_case = λ s. s;
  unique_prefix = λ n s. s;
  upload_attachment = λ n r. elim n [ zero ↦ threw none | suc m ↦ answered (some "https://a/b") ];
  put = λ n url type file. answered (true, "200");
  path_of = λ url. answered url;
  load_image = λ file. none;
}

-- No attempt is answered with a url.
abbrev silent : Network
silent = record network { upload_attachment = λ n r. answered none }

abbrev report : File
report = record { name = "my report.pdf"; type = "application/pdf"; size = 1000 }

normalize_test : normalize_filename network "my report (1).pdf" ≡ "my_report_1.pdf"
unfolding normalize_filename is_accent is_space is_safe
normalize_test = refl

type_test : get_safe_file_type network report ≡ "application/pdf"
unfolding get_safe_file_type
type_test = refl

prompt : (n : ℕ) (file : File) → upload_attachment_file network n file ≢ answered none
unfolding upload_attachment_file put_file upload_result
prompt zero file = ground arith
prompt (suc n) file = ground arith

unanswered : (n : ℕ) → upload_attachment_file silent n report ≡ answered none
unfolding upload_attachment_file
unanswered n = refl

abbrev chat : Chat
chat = record {
  messages = [];
  input_value = " hello ";
  is_connected = true;
  auto_message_sent = none;
  is_mobile_open = false;
  unread_count = 0;
  show_limit_warning = false;
  light_client = true;
  socket = true;
  channel_id = some "c1";
  is_uploading = false;
  selected_files = report ∷ [];
  previews = record { url = none; file = report } ∷ [];
  is_dragging = false;
  is_message_sending = false;
  next_url = 0;
  revoked = [];
}

abbrev send_dm : DirectMessage → Bool
send_dm m = false

can_send_test : can_send chat ≡ true
unfolding can_send trim is_space
can_send_test = refl

handle_send_message-ends_example :
    ((can_send chat ≡ false) × (handle_send_message network send_dm 4 0 chat ≡ some chat))
    ⊎ ((results : List UploadResult) × (d : Chat) × (handle_send_message network send_dm 4 0 chat
          ≡ some d)
        × (length results ≤ 1)
        × IsSent network send_dm
            (send_dm (record { channel_id = some "c1"; text = "hello"; attachments = results }))
            chat
            d)
handle_send_message-ends_example =
    handle_send_message-ends network send_dm prompt 4 0 chat (omega arith)

handle_send_message-endless_example : handle_send_message silent send_dm 100 0 chat ≡ none
handle_send_message-endless_example =
    handle_send_message-endless silent send_dm report chat unanswered refl refl can_send_test 100 0

abbrev json_parse : String → Option Parsed
json_parse s = none

abbrev incoming : Incoming
incoming = record { id = "m1"; sender = "seller"; body = text_content "hi"; attached = 0 }

accepts_test : accepts_message json_parse (some "me") "seller" incoming ≡ true
unfolding accepts_message trim is_space
accepts_test = refl

-- A text that is a number in JSON has no `t`, and the message is dropped.
number_test :
    accepts_message
      (λ s. some json_other)
      (some "me")
      "seller"
      (record incoming { body = text_content "123" })
    ≡ false
unfolding accepts_message trim is_space
number_test = refl

abbrev start : ChatRun
start = record { chat = chat; sending = none }

start-IsChat : IsChat start
start-IsChat = record {
  selection = record { paired = refl; small = (refl, tt) };
  input = omega arith;
  messages = refl;
  sending = refl;
  kept = tt;
}

abbrev events : List ChatEvent
events = received incoming ∷ submitted ∷ typed "more" ∷ received incoming ∷ sent false ∷ []

chat_run-IsChat_example : IsChat (chat_run json_parse (some "me") "seller" events start)
chat_run-IsChat_example = chat_run-IsChat json_parse (some "me") "seller" events start start-IsChat
