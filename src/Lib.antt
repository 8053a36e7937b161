-- ===== src/Lib.antt =====
-- Aurora Scholar: scholarly publishing on Arweave and Solana. This library models the core of the API
-- server (apps/api/src), the duration rules that it shares with packages/sdk, and what the web client
-- (apps/web/src) does with it: signing in, publishing, opening a private article.
--
-- The parts and how they interact.
-- Http: middleware/error-handler.ts. A handler is a function from the server's state to a result,
-- an error with its status code included, and the state that it leaves; what was written before an
-- error stays written. Http.Inversion reads a success backwards, Http.Steps runs a handler forwards.
-- Text, Canonical: JavaScript strings as lists of UTF-16 units, and `stableStringify`, which three
-- controllers and the web client copy. Canonical.Messages has the three texts that wallets sign.
-- JsMap: the `Map`s in memory that hold challenges.
-- External: the packages (signatures, web tokens, AES-GCM, Irys, dates) as records of operations with
-- the documented laws that the program relies on. Database: the rows of prisma/schema.prisma, and
-- the Prisma client as such a record. Both are parameters everywhere; Tests.World instantiates them.
-- Auth: controllers/auth.controller.ts (authChallenge, authVerify); Auth.Tickets is the abstract store of
-- tickets that the two handlers implement. Guard: middleware/require-auth.ts.
-- A token that authVerify signs is what requireAuth verifies.
-- Expiration, Tokens, Grants, Keys: controllers/access-control.controller.ts. Expiration also has
-- `calculateExpirationDate` of packages/sdk/src/index.ts. Grants writes the rows that Keys and Reading
-- test; Keys decrypts, through Secrets (services/article-secrets.service.ts), what Publish encrypted.
-- Storage: uploadArticle and getArweaveUrl of services/storage.service.ts. Publish: preparePublish of
-- controllers/articles.controller.ts, which calls Storage, Database and Secrets in the source's order.
-- Chain: getPublicArticles and getArticle of services/blockchain.service.ts; Chain.Service: its other
-- methods, over Chain.Program, the program packages/contracts/programs/aurora_scholar/src/lib.rs.
-- Catalogue: getArticles of controllers/articles.controller.ts, its pages. Reading: getArticleById and
-- getMyArticles.
-- Gateways: getContent of services/storage.service.ts, each request numbered. Verification:
-- verifyArticle of controllers/articles.controller.ts on what Gateways retrieves and Chain records.
-- Verification.Unverifiable puts it behind Publish.
-- Content: getArticleContent of controllers/articles.controller.ts, on what Gateways retrieves.
-- Instruction: the bytes of buildPublishArticleIx of apps/web/src/lib/solana/auroraProgram.ts.
-- Web: the web client (apps/web/src). A page is a browser's storage, the requests it has sent and the
-- notices it has shown, with the state of its component; `fetch` is the network behind it, and Json is
-- how replies are read. Web.Session: lib/auth/api.ts and components/auth/AuthGate.tsx;
-- Web.Session.Api puts Auth behind
-- the browser's network, by routes/auth.ts. Web.Assistant:
-- lib/api/aiAssistant.ts. Web.Crypto: lib/crypto/aesGcm.ts. Web.Modal: handlePublish of
-- components/editor/PublishModal.tsx; Web.Modal.Accepted runs Publish on its request, as Publish.Body
-- reads it. Web.PrivatePage: app/private/[articleId]/page.tsx. Web.Toasts: components/ui/toast.tsx,
-- with the browser's pending timeouts.
-- Web.Draft: the effects of app/editor/page.tsx that load and save the draft.
-- Web.Sources: components/editor/DeclaredSources.tsx.
-- Regex: the backtracking matches of JavaScript's regular expressions, as Assistant uses them.
-- Assistant: controllers/ai-assistant.controller.ts, the gate against ghostwriting (its root), the
-- sources and the history that the model is told (Assistant.Sources), the chat (Assistant.Chat) and
-- the hardening of an analysis (Assistant.Analysis). Assistant.Gemini: services/gemini.service.ts.
-- Tests: concrete packages and databases, and runs of the handlers on them.
--
-- Bounds and assumptions. Times are milliseconds since 1970; the clock, random bytes and new row ids are
-- arguments, one for each read in the source. Retrieval ends after at most twelve requests by recursion
-- on the gateways and the attempts left; its pauses are left out. Each handler runs to its end:
-- only keyClaim is split
-- where it first awaits (claim_challenge, release_key). `digits` runs on fuel `n + 1`, more than the
-- digits of `n`; matching runs on the length of the text, since each match reads at least one
-- unit. JSON numbers, page numbers and on-chain timestamps are natural numbers; `signedPayload`
-- is an object whose `createdAt` is a text or missing, and `encryptedPayload` has its declared members.
--
-- Not modelled: the parsing of the model's JSON (safeJsonParse) and the prompt of analyzeText,
-- express wiring, API documentation, the rent, fees and events of the program on the chain, the
-- rich-text editor, and the web client's views; they are I/O, wiring, or other components of the
-- repository. The text of a request of the web client is JSON.stringify's, and a reply comes
-- with its parsed value.
pub mod Prelude
pub mod Http
pub mod Text
pub mod Canonical
pub mod JsMap
pub mod External
pub mod Auth
pub mod Guard
pub mod Secrets
pub mod Database
pub mod Expiration
pub mod Tokens
pub mod Grants
pub mod Keys
pub mod Storage
pub mod Publish
pub mod Chain
pub mod Catalogue
pub mod Reading
pub mod Gateways
pub mod Verification
pub mod Content
pub mod Instruction
pub mod Json
pub mod Web
pub mod Regex
pub mod Assistant
pub mod Tests
