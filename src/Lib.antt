-- ===== src/Lib.antt =====
-- router-billing sells time on a Wi-Fi network: a device is known by its MAC address, an order or a
-- voucher buys days for it, and a firewall set lets the devices through that are paid for.
--
-- This library models the part of the program that decides who is let through, translated from
-- the Go code, and proves what it keeps true. Its files, and the code that each is about:
--
-- Models: the rows of the database and the arithmetic of times and days
-- (internal/models/models.go). A time is a number of nanoseconds in UTC; SQLite's CURRENT_TIMESTAMP, which has whole seconds
-- and is compared as a text, is the instant of a request too, so a row may live up to a second longer in the code. `Models.Arithmetic` is
-- about `AddDate` and about `time.Duration`, which wraps around at 64 bits.
-- Db: the tables behind `db.DB` (internal/db/db.go), one function per method. A method is a
-- function on the tables that returns a result or an error and the tables after it. What SQLite
-- itself may answer (a lock, a full disk) is an argument, written `works`: such a failed call changes
-- nothing, as the transactions of the code roll back. `Db.Macs`, `Db.Orders`, `Db.Vouchers` and
-- `Db.Sessions` have the methods, and their children the laws. `Db.Calls` has the writing calls on these four as data (those on accounts and second factors are in `Db.Invariant.Accounts`), and
-- `Db.Invariant` what every call keeps.
-- Firewall: the set of the nftables manager (internal/firewall/nft.go). The command `nft` is not
-- part of the repository: it is the parameter `Nft`, with what its manual says of it in `IsNft`.
-- `Tests.Data` has a set in memory that is one. The set compares addresses as they are written, where nft takes small and capital
-- letters for the same: the program writes them in capitals before they reach the tables.
-- Service: `MACService` (internal/service/mac.go), which changes the tables and the set together.
-- Server: payments (internal/server/pay.go), the browsers that wait for them
-- (internal/server/wait.go), the rate limiter, and the handlers of users (internal/server/user.go,
-- user_2fa.go, user_backup_codes.go, user_trusted_devices.go and user_forgot.go beside it) and of
-- scripts (internal/server/api_admin.go). `Server.Web` has what a handler reads and answers: a
-- handler is a computation in `Step`, which goes on with a value or stops with a reply, as the
-- early returns of the code do. `Server.Accounts` is about who a request comes from, `Server.Login`
-- and `Server.SecondFactor` about the two steps of a login, `Server.BackupCodes` about the codes that
-- stand in for the authenticator, `Server.Forgot` about a forgotten password, `Server.Settings` about what a user
-- changes of his account, `Server.Redeem` about
-- vouchers (internal/server/voucher.go), `Server.Api` about tokens and the calls that need one.
-- Codes: the codes on vouchers (internal/voucher/code.go). Totp: the codes of an authenticator
-- (internal/totp/totp.go).
-- `Db.Users`, `Db.SecondFactor` and `Db.Plans` are about accounts, their second factor and password
-- resets, plans and sightings. `Models.Schedule` and `Service.Schedules` are about the hours in
-- which a device may be online (internal/models/schedule.go), `Models.Passwords` about passwords, `Models.TypedText` about typed
-- addresses and phone numbers.
-- Prelude: lists, texts, integers, and a database table with its SELECT, UPDATE and DELETE.
-- Tests: the theorems at concrete inputs.
--
-- How the parts meet: a provider's notice reaches `finalize_order`, which marks the order
-- paid, grants its days by the service, wakes the waiters and writes an audit row. The service calls
-- `upsert_mac` on the tables and then `add` on the set. The scheduler calls `expire_due`, and a start of the
-- program `resync`. A browser's request reaches a handler, which asks the limiter, then the
-- tables, and answers; a script's request passes `match_bearer` and reaches the service.
--
-- No loop of the model needs fuel: all of them run over a list. Numbers in the code's `int` and
-- `int64` are natural numbers, except where a computation can leave the range: the
-- duration of a refund, which wraps around as in Go. Texts are lists of code points; the browser's
-- name, of which the code counts bytes, is taken to be ASCII.
--
-- What the code takes from elsewhere is an argument: `Host` has the clock (one instant in a request),
-- bcrypt, the random tokens, the escaping of a URL, and whether the n-th call of the database in a request works; `Crypto`
-- has HMAC-SHA1 and base32, `Provider` the sending of an SMS, `Parser` the reading of a
-- number, `Visitor` the device that a browser comes from and the printing of a date. A request comes parsed, a page and a JSON answer are a name and a status, and the text of an internal error
-- is not modelled. The API resyncs the firewall after a refund before it answers, where the code does it
-- in a goroutine.
--
-- Not modelled: the parsing of HTTP and JSON, HTML, the payment and SMS providers, the pages and handlers of the
-- administrator, the calls of a user on his devices, configuration, the backup and the statistics.
pub mod Prelude
pub mod Codes
pub mod Models
pub mod Db
pub mod Firewall
pub mod Service
pub mod Server
pub mod Totp
pub mod Tests
