-- ===== src/Lib.antt =====
-- A verification library for the frontend of the Mezon blockchain explorer: the parts of frontend/
-- that keep state, decide who is signed in, or limit what a user may send.
--
-- The program. The browser holds one web socket (frontend/lib/websocket), whose manager is shared by
-- all hooks: it opens the socket for an access token, watches a deadline, schedules reconnects, and
-- dispatches messages to listeners. The session (frontend/providers/AppProvider.tsx, with
-- frontend/modules/auth and frontend/utils) comes from an OAuth login (frontend/app/oauth2), stands
-- in the browser's storage and in a context, and is used by the HTTP client of frontend/service,
-- which refreshes the tokens on a 401. The feature modules (frontend/modules) build on both.
--
-- The files.
--   Base: numbers, lists, texts and dictionaries that the other files share, with their lemmas.
--   WebSocket: frontend/lib/websocket. Value has the JavaScript values that handlers look at;
--     Manager has the fields and methods of WebSocketManager, with snake_case names for its
--     camelCase ones (attempt_reconnect is attemptReconnect); Events has runs of callbacks and
--     calls in any order; Room has the hook useJoinRoom and Provider the token provider of
--     useWebSocket. Listeners, Timers, Reconnect, Connection and Room/Never prove;
--     Listeners/Refine compares the manager with a table of subscriptions.
--   Auth: StorageKeys and Storage (frontend/constant/storage-keys.constant.ts,
--     frontend/utils/clear-storage.utils.ts, frontend/utils/json-parse.utils.ts), Service (the two
--     interceptors of frontend/service/index.ts), Flight (refreshLogin of
--     frontend/modules/auth/api.ts under concurrent callers), Session (AppProvider.tsx and
--     frontend/modules/auth/utils.ts) and Oauth (the three routes).
--   Donation: Feed is frontend/modules/donation-campaign/hooks/useDonationFeed.ts, Images is
--     frontend/modules/donation-campaign/services/UploadDonationImage.ts, whose uploads
--     that go on while images are removed are in Images/Runs; Campaign and Update are
--     the forms of frontend/modules/donation-campaign/context/CreateCampaignContext.tsx and
--     UpdateDonationContext.tsx, and Withdraw is components/campaign-detail/shared/campaign-info/
--     transfer-dialog.tsx of the same module. Browse is components/campaign-list/active-campaign/
--     active-campaign.tsx, with what it asks for in Requests, and References is
--     components/campaign-updates/shared/update-form/reference-tx.tsx.
--   P2p: Offer is createOfferSchema of frontend/modules/p2p/components/p2p-trading/
--     create-offer-form/validation-schema.ts, Order is the hook useP2POrder of
--     frontend/modules/p2p/hooks/useP2POrder.ts, Cancel the hook of useCancelOffer.ts beside it.
--     Of frontend/modules/p2p/components/trading-room, Chat is chat-sidebar.tsx (its state and
--     handlers in Chat, the effects in Connect, the callback of the channel in Receive, sending
--     whole in Deliver, all in any order in Run; Selection, Tidy and Invariant prove),
--     TradingRoom is trading-room.tsx with useCreateOrder (handleConfirmBuy in Confirm) and Purchase is buy-amount-section.tsx. Upload is
--     frontend/utils/file.util.ts with the loops over a message's files, Payment is
--     create-offer-form/payment-section.tsx, CreateOffer create-offer-modal.tsx beside it, and
--     Countdown is shared/count-down.tsx. TradingRoom uses the transfer of Hooks, Chat the uploads of
--     Upload. Market is components/p2p-trading/p2p.tsx up to its requests.
--   Hooks: QueryParam and Debounce are hooks of frontend/hooks on the address's query and on
--     dropping calls; Transfer is frontend/modules/transfer/hooks, TransferForm the form of
--     frontend/modules/transfer/components/transfer.tsx; Pagination is
--     frontend/components/ui/pagination.tsx. Refresh has the four hooks that ask for a list again
--     on an event of the web socket, and uses WebSocket; Strokes is a codec for the tests.
--   LuckyMoney: the statuses of frontend/modules/lucky-money/utils.ts and useRedEnvelopeDetail.ts;
--     Create is frontend/modules/lucky-money/context/CreateRedEnvelopeContext.tsx, with its timer,
--     Rules is the form's red-envelope-basic-info.tsx, and Claim is ClaimRedEnvelopeContext.tsx with
--     components/claim-red-envelope/claim-red-envelope.tsx of the same module.
--   Profile: frontend/modules/profile/components/bank-payment-accounts-tab.tsx with the dialog
--     bank-payment-accounts-modal.tsx beside it, on the saved payments of P2p.Payment.
--   Wallet: frontend/modules/wallet/components/wallet-details/wallet-detail-tabs/shared/
--     transaction-history-card/transaction-history-card.tsx, on the address's query of Hooks.
--
-- How state is modelled. A class or a hook is a record, a method or a handler a function on it, and
-- what it does to the browser (sockets, timers, requests, calls of listeners) is appended to a
-- trace or a list in the record. Interleavings are lists of events.
--
-- Fuel. `send` in Auth/Service has fuel for the request that is sent again after a refresh: two rounds
-- are enough for every request, which a theorem shows. `fetch_pages` in Donation/Feed has fuel for
-- the pages, of which one more than there are items is enough, by its theorem. `attempt_upload` in
-- P2p/Upload has fuel for the attempts at one file: four steps are enough where no attempt is
-- answered without an upload and without an error, and else none may be.
--
-- Parameters. The servers, JSON and URL encoding, the clients of other packages, file detection and
-- compression, the chat's socket and the numbers' formats are arguments. Amounts and rates are whole
-- numbers: what the program computes on fractions of a token is not modelled.
-- JSON of tokens is an interface with its round trip, which a codec given beside the tests fills.
--
-- Not modelled: the Go services, React rendering, styles and assets, the thin wrappers that pass
-- arguments to a request, and console output.
pub mod Base
pub mod WebSocket
pub mod Auth
pub mod Donation
pub mod P2p
pub mod Profile
pub mod Wallet
pub mod Hooks
pub mod LuckyMoney
