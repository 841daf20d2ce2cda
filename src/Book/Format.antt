-- ===== src/Book/Format.antt =====
-- OrderBook::format_bbo and top_of_book of src/common/order_book.cpp.
use binary_market_data_feed.Prelude.{
  ◌≡◌, ◌≢◌, ◌↔◌, refl, true, ap, Option, none, some, List, [], ◌∷◌, ◌++◌, sym, ◌∙◌, append-nil,
}
use binary_market_data_feed.Text.{Text, codes, written, is_digit, decimal}
use binary_market_data_feed.Text.Numbers.{IsPast}
use binary_market_data_feed.Text.Pieces.{append-cancel, field-injective, dashes_apart}
use binary_market_data_feed.Book.{Level, BboSnapshot, ApplyResult, OrderBook, bbo, bbo_changed}
use binary_market_data_feed.Book.Quotes.{bbo_changed_iff}

-- What is written for one side, behind its label.
unfoldable pub level_pieces : Text → Option Level → List Text
level_pieces label none = label ∷ codes "--" ∷ []
level_pieces label (some level) =
    label ∷ decimal level.price ∷ codes " x " ∷ decimal level.quantity ∷ []

unfoldable pub format_bbo : BboSnapshot → Text
unfolding written level_pieces
format_bbo snapshot = written (
    level_pieces (codes "BID ") snapshot.best_bid
    ++ (codes " | " ∷ level_pieces (codes "ASK ") snapshot.best_ask))

unfoldable pub top_of_book : OrderBook → Text
unfolding format_bbo
top_of_book b = format_bbo (bbo b)

level_pieces-injective :
    (label : Text) (a b : Option Level) (rs ss : List Text)
    → IsPast (written rs)
    → IsPast (written ss)
    → written (level_pieces label a ++ rs) ≡ written (level_pieces label b ++ ss)
    → (a ≡ b) × (written rs ≡ written ss)
unfolding level_pieces written is_digit
level_pieces-injective label none none rs ss p q e =
    (refl, append-cancel (codes "--") _ _ (append-cancel label _ _ e))
level_pieces-injective label (some a) (some b) rs ss p q e =
    let (prices, e1) = field-injective label a.price b.price _ _ refl refl e in
    let (quantities, e2) = field-injective (codes " x ") a.quantity b.quantity _ _ p q e1 in
    (λ i. some (record { price = prices i; quantity = quantities i }), e2)
level_pieces-injective label none (some b) rs ss p q e =
    absurd (dashes_apart b.price _ _ (append-cancel label _ _ e))
level_pieces-injective label (some a) none rs ss p q e =
    absurd (dashes_apart a.price _ _ (append-cancel label _ _ (sym e)))

-- Two snapshots are printed as the same text exactly when they are the same.
pub format_bbo_iff : (a b : BboSnapshot) → (format_bbo a ≡ format_bbo b) ↔ (a ≡ b)
unfolding format_bbo written is_digit
format_bbo_iff a b = (
  λ e.
      let (bids, e1) =
        level_pieces-injective (codes "BID ") a.best_bid b.best_bid _ _ refl refl e in
      let rest = append-cancel (codes " | ") _ _ e1 in
      let (asks, _) = level_pieces-injective (codes "ASK ") a.best_ask b.best_ask [] [] tt tt (
        ap written (append-nil (level_pieces (codes "ASK ") a.best_ask))
        ∙ (rest ∙ sym (ap written (append-nil (level_pieces (codes "ASK ") b.best_ask))))) in
      λ i. record { best_bid = bids i; best_ask = asks i },
  λ same. ap format_bbo same,
)

-- bbo_changed is true exactly when the lines that are printed for the snapshots before and after differ.
pub bbo_changed-format_bbo :
    (r : ApplyResult) → (bbo_changed r ≡ true) ↔ (format_bbo r.before ≢ format_bbo r.after)
bbo_changed-format_bbo r =
    let same = format_bbo_iff r.before r.after in
    let changed = bbo_changed_iff r in
    (λ e lines. changed.0 e (same.0 lines), λ differ. changed.1 (λ e. differ (same.1 e)))
