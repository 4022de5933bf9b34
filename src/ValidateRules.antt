-- ===== src/ValidateRules.antt =====
-- The rules of a Validate block (api's rules run in llm-worker/worker/rules.py). A text is a list of
-- code points. json.loads and jsonschema are parameters; the texts of the problems are left out.
-- Of the characters that str.isdigit accepts, the model has the ASCII digits.
pub mod Json
pub mod Pointer
pub mod Decimal
pub mod Resolves
pub mod RoundTrip
pub mod Checks
pub mod Meaning
pub mod Holds
pub mod Order
mod Examples
