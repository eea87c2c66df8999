-- ===== src/React.antt =====
-- packages/code-runner-react/src: the React package.
pub mod Job
pub mod Provider
