-- ===== src/Lib.antt =====
-- The trading core of the card shop: the services of apps/api/src/modules that sell prepaid cards.
-- A buyer places an order, which locks cards; the channel announces the payment; the delivery
-- sells the locked cards to the order; a refund pays back and puts the cards on sale again; a
-- merchant withdraws its balance.
--
-- Parts. Base holds Boolean tests, signed integers (Base/Int), tables under primary keys
-- (Base/Table), results (Base/Result) and texts (Base/Text). Schema holds the enumerations and
-- rows of apps/api/prisma/schema.prisma, Schema/Store the state that all services share (one field
-- for each table, and the idempotency marks, audit log and pending events), and Schema/Action the
-- calls: a call takes the store to a result and a store, transaction rolls back on an exception,
-- catch does not. Sample is a small shop for the tests.
--
-- Order models apps/api/src/modules/order/order.service.ts: Order has create and its transaction
-- place; Order/Expiry the timer expireOrders; Order/Query findByOrderNo. Order/Keys and
-- Order/Cards are about the query that selects cards and the loop that locks them, Order/Placed
-- and Order/Placement about the transaction, Order/Creation and Order/Stock about create,
-- Order/Release about the timer. Risk models apps/api/src/modules/risk/risk-control.service.ts,
-- which create asks first; Risk/Fuse is about its fuse.
--
-- Payment models apps/api/src/modules/payment/payment.service.ts: createPayment, handleNotify
-- (handle_notify, with the idempotency mark in mark_notify, the transaction in confirm_order and
-- the payments in settle_payment) and refundChannel; Payment/Confirm and Payment/Stuck are about
-- handleNotify. Payment/Usdt models apps/api/src/modules/payment/usdt.service.ts, the poll for
-- transfers on the chain, and Payment/Late is about it. Delivery models
-- apps/api/src/modules/delivery/delivery.service.ts: deliver, its listener handle_order_paid and
-- manualRetry; Delivery/Handout is about deliver. Delivery/Emails models the queue of e-mails to
-- be sent again (retryDeliveryEmails), and Delivery/Queue is about it.
--
-- Refund models apps/api/src/modules/refund/refund.service.ts: requests, review and the payout
-- markPaid (mark_paid, with its transaction settle_refund and its merchant step charge_merchant);
-- Refund/Retry the retries, markFailed and the automatic rejection. Refund/Requests,
-- Refund/Payout, Refund/Failures and Refund/Locked are about them. Withdrawal models
-- apps/api/src/modules/withdrawal/withdrawal.service.ts; Withdrawal/Rounding is about what its
-- columns keep, Withdrawal/Step relates its calls to an abstract relation, from which
-- Withdrawal/Frozen, Withdrawal/Conservation and Withdrawal/Lifecycle follow.
--
-- Commission models the listeners of apps/api/src/modules/invite/invite.service.ts:
-- handleOrderPaid with settleCommission (the levels of an order in chain and code_levels, the
-- transaction in settle_in), and in Commission/Reversal handleOrderRefunded with reverseCommission
-- and its fuse. Commission/Ledger and Commission/Kept are about balances beside commission
-- records, Commission/Settled, Commission/Reversed and Commission/Suspension about what the two
-- listeners write, Commission/Others about the commissions of other orders, Commission/Undone
-- about a settlement and its reversal, Commission/Balance about any sequence of both. Invite
-- models the rest of that file that changes state: createCode, deleteCode, updateSettings,
-- adminUpdateInviter with isInSubtree, and validateCode; Invite/Subtree is about the search for
-- circles.
--
-- Stock models apps/api/src/modules/stock/stock.service.ts: import (import_csv, with its loop in
-- take_lines and its insertion in store_batch) and importFromExcel, and in Stock/Cards batchLock,
-- batchDelete, delete, reveal and stats. Csv models its parseCsv and parseCsvLine; Csv/Quoted and
-- Csv/Lines are about texts in quotes, Stock/Distinct, Stock/Imported and Stock/Unique about
-- imports, Stock/Removal and Stock/Unlock about deletion and locking. Snowflake models
-- apps/api/src/infrastructure/id/snowflake.service.ts, with Base/Bits for its shifts;
-- Snowflake/Step is about one call, Snowflake/Ids about all calls, Snowflake/Stall about the wait
-- for the next millisecond.
--
-- Penalty models apps/api/src/modules/penalty/penalty.service.ts: penalties of merchants, appeals,
-- decisions and the timer, and addBusinessDays in deadline_of; Penalty/Deadline is about the
-- latter, Penalty/Single and Penalty/Calls are about sequences of calls. Base/Rows has the lemmas
-- on rows that were read before others are updated.
--
-- Trade puts the order, payment and delivery services together: a call of Trade is one of create,
-- handleNotify, the listener of paid orders, manualRetry, deliver and expireOrders. Trade/Step
-- relates calls to an abstract trade on orders and cards, Trade/Holding and Trade/Filled are about
-- the cards that an order holds (Trade/Counts counts them), Trade/Invariant about any calls,
-- Trade/Promise about the delivery of paid orders. Queries of orders (which set viewedAt), new
-- payments, refunds, USDT transfers and the stock operations of merchants are not among these
-- calls.
--
-- Ticket models apps/api/src/modules/ticket/ticket.service.ts: tickets and replies in Ticket, the
-- timer autoRefundExpiredTickets with processAutoRefund (process_auto_refund) in Ticket/Timer,
-- what each side sees of a ticket in Ticket/Notes. Ticket/Step and Ticket/Calls relate its calls
-- to steps, Ticket/Freeze is about suspended merchants, Ticket/Unpaid about refunds by the timer,
-- which calls createAndPayDirect of Refund.
--
-- Application models apps/api/src/modules/merchant-application/merchant-application.service.ts:
-- applications and the accounts that they become (create_account). Application/Email models
-- email-verification.service.ts beside it, Application/Token
-- apps/api/src/modules/auth/activation.service.ts. Application/Step and Application/Calls relate
-- calls to steps, Application/Granted is about accounts, Application/Taken about shop codes,
-- Application/Inviter about inviters, Application/Codes and Application/Spent about codes by
-- e-mail.
--
-- How they interact. Services share the tables. The event that handleNotify emits is a value in
-- the store; two services listen to it, each with a function handle_order_paid: Delivery sells the
-- locked cards, Commission pays the inviters. Commission also listens to refunds
-- (handle_order_refunded). Stock adds the cards that Order locks. Refunds call refund_channel of
-- Payment. Each Tests module has the service on concrete data.
--
-- Decisions. Amounts are integers in fen, so sums and comparisons are exact where the program uses
-- binary floating point on two decimals. The amount that a withdrawal asks for may have six
-- decimals (millionths of a yuan); what is written to its columns is rounded to fen as the
-- database does, a half away from zero. An e-mail address is a number up to the case of its
-- letters: tickets compare addresses in lower case, and so does the collation of the database
-- (utf8mb4_unicode_ci). Identifiers, order numbers, addresses and codes are natural numbers; times
-- are milliseconds. Values that come from outside are arguments: fresh identifiers, order numbers,
-- the clock, the parsed notification (or that its signature is refused, or that the adapter or the
-- configuration throws), what toFixed makes of a number, which amounts in USDT the floating-point
-- comparison of the poll takes as equal, the answer of a channel to a refund, the transfers to a
-- wallet, the hash and the cipher of a card, the rows of an Excel sheet, whether the database
-- refuses to create many rows at once, the product of an amount and a rate, the readings of the
-- clock during a wait of the generator (counted from its EPOCH, which the clock is taken to be
-- past), whether an e-mail is taken, the plain text of a card, the keys and the reason of a refund
-- that the timer of tickets makes, the codes, tokens and hashes of applications. A call is one
-- atomic step: interleavings of two calls are not modelled, so that locks and compare-and-set
-- conditions are kept as conditions only. A query without an order returns rows in the order of
-- the table. The unique indexes of the identifiers, of order numbers, idempotency keys, refund
-- numbers, payment numbers and of the order of a card are checked where rows are written. Audit
-- entries and risk records never fail, as their exceptions are swallowed. Marks of notifications
-- and transfers hold the time of their end, 24 hours after they are set. The timers take at most
-- the number of rows that the program takes in one run; their loops are structural recursion over
-- these rows. The spin loop of the generator is structural recursion over the readings of the
-- clock, and a call whose readings end before it does has no result; the search for circles counts
-- its three levels down. The deadline of an appeal is counted on fuel of five days, which three
-- workdays need at most. Nothing else needs fuel.
--
-- Not modelled: the sending of e-mails to buyers, the adapters of the channels and their
-- signatures, the ciphers, the read-only listings, trees, leaderboards and reports, and the other
-- modules of the server: coupons, sessions, settings and content. The web front end has no part of
-- the trading core.
pub mod Base
pub mod Schema
pub mod Sample
pub mod Withdrawal
pub mod Risk
pub mod Order
pub mod Delivery
pub mod Payment
pub mod Refund
pub mod Trade
pub mod Ticket
pub mod Application
pub mod Commission
pub mod Invite
pub mod Penalty
pub mod Snowflake
pub mod Csv
pub mod Stock
