-- ===== src/Providers.antt =====
-- src/providers: the mock billing provider, the Stripe adapter and the set-up of test payments.
pub mod Types
pub mod Mock
pub mod Stripe
pub mod StripePayments
pub mod StripeRefunds
pub mod TestPayments
pub mod Answers
