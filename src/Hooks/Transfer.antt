-- ===== src/Hooks/Transfer.antt =====
-- Transfers: frontend/modules/transfer/hooks/useTransfer.ts and useTransferByPrivateKey.ts with
-- ../types.ts. The client of the chain is a parameter, which may throw with a message.
use mmn_tx_explorer.Base.{
  ℕ, ◌+◌, String, ◌&&◌, Option, none, some, List, [], ◌∷◌, ◌≡◌, refl, arith, if◌then◌else◌, truthy,
  Bool-cases, Option-cases, inl, inr, ◌⊎◌, true, subst, &&_iff,
}

-- What a call ends with that may throw.
pub data Answer {ℓ} (A : Type ℓ) : Type ℓ where
  threw : Option String → Answer A
  answered : A → Answer A

pub record TransferInput : Type 0 where
  pub recipient_address : String
  pub amount : String
  pub note : Option String
  pub offer_id : Option String
  pub order_id : Option String
  pub red_envelope_id : Option String

pub data TransferResult : Type 0 where
  success : String → TransferResult
  failure : String → TransferResult

-- What the hooks of the context give, none for null.
pub record Credentials : Type 0 where
  pub user : Option (String × String × String)
  pub keypair : Option (String × String)
  pub zk_proof : Option (String × String)

pub record Transaction : Type 0 where
  pub sender : String
  pub recipient : String
  pub amount : String
  pub nonce : ℕ
  pub text_data : String
  pub public_key : String
  pub private_key : String
  pub zk_proof : String
  pub zk_pub : String
  pub user_sender_id : String
  pub user_sender_username : String
  pub type : String
  -- The ids of an offer, an order and a red envelope, where they are there.
  pub references : List (String × String)

pub data Response : Type 0 where
  accepted : String → Response
  rejected : Option String → Response

pub record Chain : Type 0 where
  pub get_current_nonce : String → Answer ℕ
  pub scale_amount_to_decimals : String → String
  pub send_transaction : Transaction → Answer Response

-- `x || y`, for an optional text
abbrev pub or_default : Option String → String → String
or_default none d = d
or_default (some s) d = if truthy s then s else d

-- `...(id && { name: id })`
abbrev pub reference : String → Option String → List (String × String) → List (String × String)
reference name none rest = rest
reference name (some id) rest = if truthy id then (name, id) ∷ rest else rest

abbrev pub id_of : Option (String × String × String) → String
id_of none = ""
id_of (some (id, name, address)) = id

abbrev pub name_of : Option (String × String × String) → String
name_of none = ""
name_of (some (id, name, address)) = name

abbrev pub address_of : Option (String × String × String) → String
address_of none = ""
address_of (some (id, name, address)) = address

-- Both texts, where they are there and not empty.
abbrev pub both_of : Option (String × String) → Option (String × String)
both_of none = none
both_of (some (a, b)) = if truthy a && truthy b then some (a, b) else none

abbrev pub settled : Answer Response → TransferResult
settled (threw message) = failure (or_default message "An error occurred")
settled (answered (accepted hash)) = success hash
settled (answered (rejected error)) = failure (or_default error "Transaction failed")

abbrev pub missing_user : String
missing_user = "Missing user info. Please log in again."

abbrev pub missing_keys : String
missing_keys = "Missing cryptographic keys. Please log in again."

abbrev pub missing_proof : String
missing_proof = "Missing zero-knowledge proof. Please log in again."

both_of-some :
    (o : Option (String × String)) (p : String × String)
    → both_of o ≡ some p
    → (o ≡ some p) × (truthy p.0 ≡ true) × (truthy p.1 ≡ true)
both_of-some none p h = absurd (ground arith)
both_of-some (some (a, b)) p h = elim (Bool-cases (truthy a && truthy b)) [
  | inl e ↦
      let same : (a, b) ≡ p = ground arith in
      subst (λ q. (some (a, b) ≡ some q) × (truthy q.0 ≡ true) × (truthy q.1 ≡ true)) same
        (refl, ((&&_iff (truthy a) (truthy b)).0 e).0, ((&&_iff (truthy a) (truthy b)).0 e).1)
  | inr e ↦ absurd (ground arith)
]

Answer-cases : (a : Answer ℕ) → ((m : Option String) × (a ≡ threw m)) ⊎ ((n : ℕ) × (a ≡ answered n))
Answer-cases (threw m) = inl (m, refl)
Answer-cases (answered n) = inr (n, refl)

module _ (chain : Chain) where
  open chain use {get_current_nonce, scale_amount_to_decimals, send_transaction}

  -- The transaction that `transfer` forms.
  unfoldable pub transaction :
      Credentials → String × String → String × String → ℕ → TransferInput → String → Transaction
  transaction c (public_key, private_key) (proof, public_input) nonce input type = record {
    sender = address_of c.user;
    recipient = input.recipient_address;
    amount = scale_amount_to_decimals input.amount;
    nonce = nonce + 1;
    text_data = or_default input.note "";
    public_key = public_key;
    private_key = private_key;
    zk_proof = proof;
    zk_pub = public_input;
    user_sender_id = id_of c.user;
    user_sender_username = name_of c.user;
    type = type;
    references = reference "offer_id" input.offer_id (
        reference "order_id" input.order_id (reference "red_envelope_id" input.red_envelope_id []));
  }

  -- `transfer`: the result, and the transactions that were sent.
  unfoldable pub transfer : Credentials → TransferInput → String → TransferResult × List Transaction
  unfolding transaction
  transfer c input type =
      if truthy (id_of c.user)
      then (elim (both_of c.keypair) [
        | none ↦ (failure missing_keys, [])
        | some keys ↦ elim (both_of c.zk_proof) [
          | none ↦ (failure missing_proof, [])
          | some proof ↦ elim (get_current_nonce (id_of c.user)) [
            | threw message ↦ (failure (or_default message "An error occurred"), [])
            | answered nonce ↦
                let tx = transaction c keys proof nonce input type in
                (settled (send_transaction tx), tx ∷ [])
          ]
        ]
      ])
      else (failure missing_user, [])

  -- A transfer either sends one transaction, which then has the next nonce and gives the result, the
  -- user's id, both keys and both parts of the proof being there and not empty and the nonce read,
  -- or it sends nothing and the result is a failure.
  pub transfer_lem :
      (c : Credentials) (input : TransferInput) (type : String)
      → ((keys proof : String × String) × (nonce : ℕ) × (truthy (id_of c.user) ≡ true)
          × (c.keypair ≡ some keys)
          × (truthy keys.0 ≡ true)
          × (truthy keys.1 ≡ true)
          × (c.zk_proof ≡ some proof)
          × (truthy proof.0 ≡ true)
          × (truthy proof.1 ≡ true)
          × (get_current_nonce (id_of c.user) ≡ answered nonce)
          × (transfer c input type ≡ (
            settled (send_transaction (transaction c keys proof nonce input type)),
            transaction c keys proof nonce input type ∷ [],
          ))
          × ((transaction c keys proof nonce input type).nonce ≡ nonce + 1))
        ⊎ ((message : String) × (transfer c input type ≡ (failure message, [])))
  unfolding transfer
  transfer_lem c input type = elim (Bool-cases (truthy (id_of c.user))) [
    | inr out ↦ inr (missing_user, ground arith)
    | inl user ↦ elim (Option-cases (both_of c.keypair)) [
      | inl e ↦ inr (missing_keys, ground arith)
      | inr (keys, e) ↦ elim (Option-cases (both_of c.zk_proof)) [
        | inl f ↦ inr (missing_proof, ground arith)
        | inr (proof, f) ↦ elim (Answer-cases (get_current_nonce (id_of c.user))) [
          | inl (m, g) ↦ inr (or_default m "An error occurred", ground arith)
          | inr (n, g) ↦
              let (has_keys, public, private) = both_of-some c.keypair keys e in
              let (has_proof, first, second) = both_of-some c.zk_proof proof f in
              inl (
                keys,
                proof,
                n,
                user,
                has_keys,
                public,
                private,
                has_proof,
                first,
                second,
                g,
                ground arith,
                refl,
              )
        ]
      ]
    ]
  ]

-- `transfer` of useTransferByPrivateKey: who is asked for a nonce is the sender's address.
pub record KeyTransaction : Type 0 where
  pub sender : String
  pub recipient : String
  pub amount : String
  pub nonce : ℕ
  pub text_data : String
  pub private_key : String
  pub type : String

pub record KeyChain : Type 0 where
  pub get_current_nonce_by_address : String → Answer ℕ
  pub scale_amount : String → String
  pub send_by_private_key : KeyTransaction → Answer Response

module _ (chain : KeyChain) where
  open chain use {get_current_nonce_by_address, scale_amount, send_by_private_key}

  unfoldable pub key_transaction : String → TransferInput → String → String → ℕ → KeyTransaction
  key_transaction key input type sender nonce = record {
    sender = sender;
    recipient = input.recipient_address;
    amount = scale_amount input.amount;
    nonce = nonce + 1;
    text_data = or_default input.note "";
    private_key = key;
    type = type;
  }

  unfoldable pub transfer_by_private_key :
      String → TransferInput → String → String → TransferResult × List KeyTransaction
  unfolding key_transaction
  transfer_by_private_key key input type sender =
      if truthy key
      then (if truthy input.recipient_address
          then (elim (get_current_nonce_by_address sender) [
            | threw message ↦ (failure (or_default message "An error occurred"), [])
            | answered nonce ↦
                let tx = key_transaction key input type sender nonce in
                (settled (send_by_private_key tx), tx ∷ [])
          ])
          else (failure "Missing recipient address.", []))
      else (failure "Missing private key.", [])

  -- A transfer by a private key either sends one transaction, formed with the nonce after the one that
  -- was read and with the chain's answer as its result, the key and the recipient not being empty,
  -- or it sends nothing and the result is a failure.
  pub transfer_by_private_key_lem :
      (key : String) (input : TransferInput) (type sender : String)
      → ((nonce : ℕ) × (truthy key ≡ true)
          × (truthy input.recipient_address ≡ true)
          × (get_current_nonce_by_address sender ≡ answered nonce)
          × (transfer_by_private_key key input type sender ≡ (
            settled (send_by_private_key (key_transaction key input type sender nonce)),
            key_transaction key input type sender nonce ∷ [],
          )))
        ⊎ ((message : String) × (transfer_by_private_key key input type sender
              ≡ (failure message, [])))
  unfolding transfer_by_private_key
  transfer_by_private_key_lem key input type sender = elim (Bool-cases (truthy key)) [
    | inr e ↦ inr ("Missing private key.", ground arith)
    | inl e ↦ elim (Bool-cases (truthy input.recipient_address)) [
      | inr f ↦ inr ("Missing recipient address.", ground arith)
      | inl f ↦ elim (Answer-cases (get_current_nonce_by_address sender)) [
        | inl (m, g) ↦ inr (or_default m "An error occurred", ground arith)
        | inr (n, g) ↦ inl (n, e, f, g, ground arith)
      ]
    ]
  ]
