-- ===== src/Lib.antt =====
-- ConvoMeow keeps the messages of WhatsApp accounts in SQLite and gives clients an API to read and
-- to send them. This library models the core of its server: what the store does with its tables,
-- and what the service between the store, the provider and the clients does.
--
-- The parts, and the code behind them:
--   Base                  Booleans, texts (bytes, ordered as SQLite orders them) and tables: lists
--                         of rows with a selection, an update and a deletion by a condition.
--   Core                  internal/core: errors, results, enumerations, `ValidateMediaType`.
--   Store.Tables          internal/store/sqlite/schema.go: the rows of the tables.
--   Store.Conversations   refreshConversationTx and the order of messages (conversations.go,
--                         messages.go).
--   Store.Attachments     saveAttachmentsTx and saveReplyTx (attachments.go, replies.go).
--   Store.Messages        prepareMessage, LookupSend, ReserveSend, CompleteSend, GetMessage
--                         (messages.go).
--   Store.Uploads         the table `uploads` (outgoing_media.go).
--   Store.MediaJobs       ReserveMediaSend and the jobs that send media (outgoing_media.go); in
--                         Recovery recoverSends (store.go).
--   Store.Links           linkedJIDsTx and the links of addChatLinkTx (aliases.go).
--   Store.Merge           mergeConversationTx (aliases.go); in Store.MergeParts the order, receipts
--                         and replies of two messages (mergeMessageOrderTx) and
--                         mergeAttachmentsTx (attachments.go).
--   Store.Chats           ensureConversationTx, addChatLinkTx (aliases.go), GetOrCreateConversation,
--                         FindConversationID, UpdateChatProfile (conversations.go).
--   Store.Incoming        saveMessage and saveMessageTx (messages.go).
--   Store.Changes         edits and deletions of messages (message_changes.go).
--   Store.Reactions       the upsert and the merge of participants (reactions.go).
--   Store.Receipts        saveReceiptTx (receipts.go).
--   Store.Media           the changes of a stored attachment, GetMedia, ListPendingMedia and
--                         StoredMediaBytes, ClearMediaOrphan (media.go).
--   Store.Avatars         SaveAvatar, TouchAvatar, ClearAccountAvatars (avatars.go).
--   Store.Deliveries      browser subscriptions and notification jobs (notifications.go).
--   App.Session           internal/app/service.go: accounts at run time and onEvent; in Logins
--                         StartLogin and finishLogin, in Accounts CreateAccount, LoginStatus and
--                         what Start makes of an account.
--   App.Send              SendTextReply, replyTarget and validateSendKey (service.go, replies.go,
--                         media_send.go).
--   App.MediaSend         processMediaSend, retryMediaSend, failMediaSend (media_send.go).
--   App.MediaFetch        processMedia (media.go); in App.MediaFiles what it works on,
--                         mediaFailure, blockMedia and imageDimensions
--                         (media_dimensions.go).
--   App.Notifications     Subscribe, publish, closeNotifications (notifications.go).
--   App.Activity          updateActivity and flushActivityLocked (activity.go).
--   App.Quota             the reservations of temporary and of stored bytes (uploads.go, media.go).
--   App.Webp              staticWebPDimensions (uploads.go).
--   Api                   parseMediaRange (internal/api/native/v1/media.go), with what it uses of
--                         Go's texts and integers.
--   Tests                 sample data, tests and concrete uses of the theorems.
--
-- App.Send and App.MediaSend run on the operations of Store.Messages and Store.MediaJobs, and on
-- the accounts of App.Session; App.MediaFetch runs on Store.Media, App.Session, App.Quota and
-- App.Webp. Store.Incoming puts a message into the conversation that Store.Chats finds, which joins
-- conversations with Store.Merge along the links of Store.Links. State is passed explicitly; a
-- failure is an `err` of `Core.Result`. A transaction that fails leaves the database as it was; the
-- statements of SQL have their documented effect and do not fail for another reason than the one
-- that the code names, and foreign keys are taken to hold. Operations that run under a lock or in a
-- transaction are one step, and theorems on interleavings speak of lists of steps or of the
-- relations `Step` and `Steps`. StartLogin is one step: that an event comes between its parts is
-- not modelled. A pass of processMediaSend runs on one database: other operations come before or
-- after it, and `meanwhile` of its `World` is any function on the accounts, which it reads again
-- before it retries. A restart is recoverSends on a database where each job has its message and no
-- message has two jobs, as the keys of the tables demand.
--
-- Identifiers, hashes and names that the code only compares are numbers, and 0 is the empty text; a
-- text whose bytes matter is a list of them. A time is a number of nanoseconds, counted from Go's zero
-- time, which is 0. An enumeration of texts is a data type, with `unset` for the empty one. What the provider,
-- the file system, the object store, the clock, the generator of identifiers, Go's text functions
-- and JSON answer is an argument: the records `Call`, `Answers`, `Outside` and `World`.
--
-- The search of Store.Links runs on fuel, one more than the number of seeds and links together:
-- each round takes one identifier from the queue, and an identifier enters it only once, as a seed
-- or at the end of a link. The pages of a merge run on fuel, one more than the number of messages
-- of the source: each round but the last takes at least one of them out of the conversation. Where
-- fuel could run out, the answer is an option, the type `Run` of Store.Chats. Every other loop
-- follows a list. Sizes are natural numbers: the code's limits are below 2^63.
--
-- Between the start and the end of a download other workers go on: `meanwhile` of App.MediaFiles is
-- any function on what they share. Identifiers that the code sorts by, as the conversations that
-- were created at one time, are numbers in the order of their texts.
--
-- Not modelled: the provider for WhatsApp, the handlers of the HTTP API, the command line, the
-- configuration, the web client, the fetching of avatars, groups, the viewers of presence, the
-- import of history, the list of revisions of a message, the views that list messages and
-- conversations, the queues of the workers, and the input and output of files and objects. Of the
-- notifications of browsers that saveMessage queues, Store.Incoming has only whether they are
-- queued; the merges of reactions and receipts that addChatLinkTx starts stand in Store.Reactions,
-- apart from Store.Chats.
pub mod Base
pub mod Core
pub mod Store
pub mod App
pub mod Api
pub mod Tests
