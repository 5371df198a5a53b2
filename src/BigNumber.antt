-- ===== src/BigNumber.antt =====
-- The numbers of the package bignumber.js, which the program uses for every amount, price and fee.
-- The package is not part of the repository: its type, its operations and what its documentation
-- says of them are a parameter of every module that computes with amounts. `plus`, `minus` and
-- `multipliedBy` are exact there; `dividedBy` rounds to DECIMAL_PLACES, so it undoes a product only
-- where the quotient has no more decimal places than that (`fits`). NaN and the infinities are not
-- values of `Num`. The sign `s` of zero, which depends on how a zero arose, is left open.
mod Spec
mod Laws
mod Order
mod Products
mod Integers
pub use Spec.*
pub use Laws.*
pub use Order.*
pub use Products.*
pub use Integers.{integers}
