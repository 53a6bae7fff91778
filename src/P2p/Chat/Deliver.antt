-- ===== src/P2p/Chat/Deliver.antt =====
-- `handleSendMessage` of chat-sidebar.tsx whole, where nothing happens between its awaits. The socket's
-- `sendDM` is a parameter: whether it delivers. The links that mark the text's addresses are left out.
use mmn_tx_explorer.Base.{
  ℕ, ◌≤◌, ◌<◌, String, Bool, true, false, Option, none, some, List, [], ◌∷◌, ◌≡◌, ◌≢◌, ◌⊎◌, inl,
  inr, refl, arith, ltb, if◌then◌else◌, Bool-cases, trim, length,
}
use mmn_tx_explorer.Hooks.Transfer.{answered}
use mmn_tx_explorer.P2p.Upload.{
  File, UploadResult, Network, max_file_size, upload_attachment_file, upload_all,
}
use mmn_tx_explorer.P2p.Upload.Retry.{upload_all-ends, attempt_upload-endless}
use mmn_tx_explorer.P2p.Chat.{Chat, Sending, sending_of, can_send, begin_send, end_send}

pub record DirectMessage : Type 0 where
  pub channel_id : Option String
  pub text : String
  pub attachments : List UploadResult

module _ (net : Network) (send_dm : DirectMessage → Bool) where
  -- From the first await to the last: whether the message was delivered, and its attachments; none
  -- where the fuel of an upload runs out.
  unfoldable pub upload_and_send :
      ℕ → ℕ → Option String → Sending → Option (Bool × List UploadResult)
  upload_and_send fuel n channel w = elim (upload_all net fuel n w.files) [
    | none ↦ none
    | some (results, k) ↦ some (
      send_dm (record { channel_id = channel; text = w.content; attachments = results }),
      results,
    )
  ]

  unfoldable pub handle_send_message : ℕ → ℕ → Chat → Option Chat
  unfolding upload_and_send
  handle_send_message fuel n c =
      if can_send c
      then (elim (upload_and_send fuel n c.channel_id (sending_of c)) [
        | none ↦ none
        | some (delivered, results) ↦ some (end_send delivered (sending_of c) (begin_send c))
      ])
      else some c

  -- What a call past its guards leaves: the input empty where the message was delivered, else as it
  -- was, the text trimmed; no call is out.
  pub record IsSent (delivered : Bool) (c d : Chat) : Type 0 where
    pub input : d.input_value ≡ (if delivered then "" else trim c.input_value)
    pub files : d.selected_files ≡ (if delivered then [] else c.selected_files)
    pub previews : d.previews ≡ (if delivered then [] else c.previews)
    pub idle : (d.is_message_sending ≡ false) × (d.is_uploading ≡ false)
    pub kept : d.messages ≡ c.messages

  end_send-IsSent :
      (delivered : Bool) (c : Chat)
      → IsSent delivered c (end_send delivered (sending_of c) (begin_send c))
  unfolding end_send begin_send
  end_send-IsSent true c = record {
    input = refl;
    files = refl;
    previews = refl;
    idle = (refl, refl);
    kept = refl;
  }
  end_send-IsSent false c = record {
    input = refl;
    files = refl;
    previews = refl;
    idle = (refl, refl);
    kept = refl;
  }

  -- Where no attempt at a file is answered without an upload and without an error, sending ends, four
  -- steps being enough for each file: either it is refused and nothing changes, or a message with at
  -- most as many attachments as there are files goes out, after which the input is empty where it was
  -- delivered and as before, the text trimmed, where it was not.
  pub handle_send_message-ends :
      ((n : ℕ) (file : File) → upload_attachment_file net n file ≢ answered none)
      → (fuel n : ℕ) (c : Chat) → 3 < fuel
      → ((can_send c ≡ false) × (handle_send_message fuel n c ≡ some c))
        ⊎ ((results : List UploadResult) × (d : Chat) × (handle_send_message fuel n c ≡ some d)
            × (length results ≤ length c.selected_files)
            × IsSent
                (send_dm (record {
                  channel_id = c.channel_id;
                  text = trim c.input_value;
                  attachments = results;
                }))
                c
                d)
  unfolding handle_send_message
  handle_send_message-ends h fuel n c enough = elim (Bool-cases (can_send c)) [
    | inr e ↦ inl (e, ground arith)
    | inl e ↦
        let (results, k, p, few, q) = upload_all-ends net h fuel enough n c.selected_files in
        let sent = send_dm (record {
          channel_id = c.channel_id;
          text = trim c.input_value;
          attachments = results;
        }) in
        inr (
          results,
          end_send sent (sending_of c) (begin_send c),
          ground arith,
          few,
          end_send-IsSent sent c,
        )
  ]

  -- A message with one file, not too large, whose every upload is answered without a url and without
  -- an error is never sent: whatever the fuel, the call does not end.
  pub handle_send_message-endless :
      (file : File) (c : Chat)
      → ((n : ℕ) → upload_attachment_file net n file ≡ answered none)
      → ltb max_file_size file.size ≡ false
      → c.selected_files ≡ file ∷ []
      → can_send c ≡ true
      → (fuel n : ℕ) → handle_send_message fuel n c ≡ none
  unfolding handle_send_message upload_all
  handle_send_message-endless file c h small one ok fuel n =
      let stuck = attempt_upload-endless net file h fuel n in ground arith
